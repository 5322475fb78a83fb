-- ===== src/McpClient/Calls.antt =====
-- backend/app/mcp/client.py: the catalog that is listed for a server, and which calls reach a server.
-- The status that the manager reports of its servers is left out.
use agent_demo.Prelude.{
  ℕ, ◌+◌, ltb, Bool, true, false, not, ◌||◌, String, Option, none, some, List, [], ◌∷◌, str_eq,
  if◌then◌else◌, concat,
}
use agent_demo.Json.{Json, Fields, text, obj, end, field, get, truthy}
use agent_demo.McpClient.{
  McpFailure, runtime, foreign, Reply, replies, raises, then_reply, CatalogKind, tools, resources,
  prompts, declares,
}

-- The fields of a configured server that these operations read.
pub record McpServer : Type 0 where
  pub name : String
  pub transport : String
  pub command : String
  pub url : String
  pub enabled : Bool
  pub discovery_cache_time : ℕ
  pub tools : List Fields
  pub resources : List Fields
  pub prompts : List Fields

-- The entry of a dict that is built from the servers in their order: the last with the name.
abbrev pub find_server : String → List McpServer → Option McpServer
find_server name [] = none
find_server name (server ∷ servers) =
    let later = find_server name servers in
    let here = if str_eq server.name name then some server else none in
    elim later [ none ↦ here | some found ↦ some found ]

abbrev enabled_server : String → Option McpServer → Reply McpServer
enabled_server name none = raises (runtime (concat ("MCP server is not enabled: " ∷ name ∷ [])))
enabled_server name (some server) =
    if server.enabled
    then replies server
    else raises (runtime (concat ("MCP server is not enabled: " ∷ name ∷ [])))

unfoldable pub get_server : String → List McpServer → Reply McpServer
get_server name servers = enabled_server name (find_server name servers)

unfoldable pub has_transport : McpServer → Bool
has_transport server =
    if str_eq server.transport "stdio"
    then not (str_eq server.command "")
    else not (str_eq server.url "")

-- `{**item, key: value}`
unfoldable pub with_field : String → Json → Fields → Fields
with_field key value end = field key value end
with_field key value (field k v rest) =
    if str_eq k key then field k value rest else field k v (with_field key value rest)

-- `item.get("enabled", True)`
unfoldable pub item_is_enabled : Fields → Bool
unfolding get declares
item_is_enabled item = if declares "enabled" item then truthy (get "enabled" item) else true

unfoldable pub with_route : McpServer → Fields → Fields
unfolding with_field
with_route server item =
    with_field "transport" (text server.transport)
      (with_field "server_name" (text server.name) item)

abbrev pub put_first : Bool → Json → List Json → List Json
put_first true item items = item ∷ items
put_first false item items = items

-- The enabled items with the route of their server; `item.get` fails on what is not a dict.
unfoldable pub routed : McpServer → List Json → Reply (List Json)
unfolding item_is_enabled with_route
routed server [] = replies []
routed server (obj item ∷ items) =
    then_reply (routed server items)
      λ more. replies (put_first (item_is_enabled item) (obj (with_route server item)) more)
routed server (_ ∷ items) = raises (foreign "AttributeError")

abbrev configured : McpServer → CatalogKind → List Fields
configured server tools = server.tools
configured server resources = server.resources
configured server prompts = server.prompts

abbrev objects : List Fields → List Json
objects [] = []
objects (item ∷ items) = obj item ∷ objects items

-- The configured items, or those that `discovered`, the reply of _pages, holds.
abbrev pub values_of : McpServer → CatalogKind → Reply (List Json) → Reply (List Json)
unfolding has_transport
values_of server kind discovered = elim (configured server kind) [
  | [] ↦ if has_transport server then discovered else replies []
  | item ∷ items ↦ replies (objects (item ∷ items))
]

-- An error is raised again with the text that _record_error has kept of it, `describe`.
abbrev pub reraised {ℓ} : {A : Type ℓ} → (McpFailure → String) → Reply A → Reply A
reraised describe (replies a) = replies a
reraised describe (raises failure) = raises (runtime (describe failure))

-- A catalog that is read anew.
unfoldable pub catalog :
    (McpServer → McpFailure → String)
    → McpServer
    → CatalogKind
    → Reply (List Json)
    → Reply (List Json)
unfolding routed values_of
catalog describe server kind discovered =
    reraised (describe server) (then_reply (values_of server kind discovered) (routed server))

pub record CachedCatalog : Type 0 where
  pub expires_at : ℕ
  pub values : List Json

abbrev pub stored :
    ℕ → Option CachedCatalog → Reply (List Json) → Reply (List Json) × Option CachedCatalog
stored expires_at cached (replies values) =
    (replies values, some (record { expires_at = expires_at; values = values }))
stored expires_at cached (raises failure) = (raises failure, cached)

abbrev pub fresh_or :
    ℕ
    → Option CachedCatalog
    → Reply (List Json) × Option CachedCatalog
    → Reply (List Json) × Option CachedCatalog
fresh_or now none anew = anew
fresh_or now (some cached) anew =
    if ltb now cached.expires_at then (replies cached.values, some cached) else anew

-- The listing of a server's catalog, and what the cache then holds of it; `now` and `later` are the two
-- readings of the clock.
unfoldable pub list_catalog :
    (McpServer → McpFailure → String)
    → McpServer
    → CatalogKind
    → ℕ
    → ℕ
    → Reply (List Json)
    → Option CachedCatalog
    → Reply (List Json) × Option CachedCatalog
unfolding catalog
list_catalog describe server kind now later discovered cached =
    fresh_or now cached (
      stored (later + server.discovery_cache_time) cached (catalog describe server kind discovered))

-- `next((item for item in items if item.get(key) == value), None)`
abbrev is_named : String → Json → Bool
is_named value (text other) = str_eq other value
is_named value _ = false

unfoldable pub find_item : String → String → List Fields → Option Fields
unfolding get
find_item key value [] = none
find_item key value (item ∷ items) =
    if is_named value (get key item) then some item else find_item key value items

pub record McpRequest : Type 0 where
  pub server : McpServer
  pub method : String
  pub params : Fields

-- The request that an operation sends, where it sends one, and what it returns or raises.
pub record Contact : Type 0 where
  pub request : Option McpRequest
  pub reply : Reply Json

abbrev pub locally : Reply Json → Contact
locally reply = record { request = none; reply = reply }

module _ (describe : McpServer → McpFailure → String) (is_too_large : McpServer → Json → Bool)
    (ask : McpRequest → Reply Json) (servers : List McpServer) where
  abbrev limited : McpServer → Json → Reply Json
  limited server result =
      if is_too_large server result
      then raises (runtime "MCP result exceeded its byte limit")
      else replies result

  unfoldable pub run_method : McpServer → String → Fields → Contact
  unfolding has_transport
  run_method server method params =
      let request : McpRequest = record { server = server; method = method; params = params } in
      if has_transport server
      then record {
        request = some request;
        reply = reraised (describe server) (then_reply (ask request) (limited server));
      }
      else locally (
          raises (
            runtime
              (describe server (runtime "No MCP transport or explicit mock result is configured"))))

  abbrev pub on_reply : (McpServer → Contact) → Reply McpServer → Contact
  on_reply next (replies server) = next server
  on_reply next (raises failure) = locally (raises failure)

  unfoldable pub on_server : String → (McpServer → Contact) → Contact
  unfolding get_server
  on_server name next = on_reply next (get_server name servers)

  unfoldable pub tool_call : String → String → Json → McpServer → Option Fields → Contact
  unfolding run_method item_is_enabled declares get
  tool_call server_name name arguments server none =
      run_method server "tools/call" (field "name" (text name) (field "arguments" arguments end))
  tool_call server_name name arguments server (some tool) =
      if not (item_is_enabled tool)
      then locally
          (raises (runtime (concat ("MCP tool is disabled: " ∷ server_name ∷ "/" ∷ name ∷ []))))
      else if declares "mock_result" tool
      then locally (replies (get "mock_result" tool))
      else run_method server "tools/call"
          (field "name" (text name) (field "arguments" arguments end))

  unfoldable pub call_tool : String → String → Json → Contact
  unfolding tool_call on_server find_item
  call_tool server_name name arguments =
      on_server server_name
        λ server. tool_call server_name name arguments server (find_item "name" name server.tools)

  unfoldable pub resource_read : String → McpServer → Option Fields → Contact
  unfolding run_method declares has_transport
  resource_read uri server none = run_method server "resources/read" (field "uri" (text uri) end)
  resource_read uri server (some resource) =
      if declares "content" resource || (declares "contents" resource || not (has_transport server))
      then locally (replies (obj resource))
      else run_method server "resources/read" (field "uri" (text uri) end)

  unfoldable pub read_resource : String → String → Contact
  unfolding resource_read on_server find_item
  read_resource server_name uri =
      on_server server_name
        λ server. resource_read uri server (find_item "uri" uri server.resources)

  -- `arguments or {}`
  abbrev given_or_empty : Option Fields → Fields
  given_or_empty none = end
  given_or_empty (some arguments) = arguments

  unfoldable pub prompt_get : String → Option Fields → McpServer → Option Fields → Contact
  unfolding run_method declares has_transport
  prompt_get name arguments server none =
      run_method server "prompts/get"
        (field "name" (text name) (field "arguments" (obj (given_or_empty arguments)) end))
  prompt_get name arguments server (some prompt) =
      if declares "messages" prompt || not (has_transport server)
      then locally (replies (obj prompt))
      else run_method server "prompts/get"
          (field "name" (text name) (field "arguments" (obj (given_or_empty arguments)) end))

  unfoldable pub get_prompt : String → String → Option Fields → Contact
  unfolding prompt_get on_server find_item
  get_prompt server_name name arguments =
      on_server server_name
        λ server. prompt_get name arguments server (find_item "name" name server.prompts)
