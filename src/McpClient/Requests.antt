-- ===== src/McpClient/Requests.antt =====
-- backend/app/mcp/client.py: which operations send a request, and to which server.
use agent_demo.Prelude.{
  ◌≡◌, refl, ap, sym, ◌∙◌, arith, inl, inr, ◌⊎◌, Bool, true, not, ◌&&◌, ◌||◌, String, Option, none,
  some, List, Bool-cases,
}
use agent_demo.Json.{Json, Fields}
use agent_demo.McpClient.{McpFailure, Reply, replies, raises, declares}
use agent_demo.McpClient.Calls.{
  McpServer, get_server, has_transport, item_is_enabled, find_item, McpRequest, Contact, run_method,
  call_tool, tool_call, read_resource, resource_read, get_prompt, prompt_get, on_reply, on_server,
  locally,
}
use agent_demo.McpClient.Routing.{IsServer, get_server-IsServer}

pub data Operation : Type 0 where
  calls : String → Json → Operation
  reads : String → Operation
  prompted : String → Option Fields → Operation

-- Whether what is configured for an operation's item leaves it to the server.
abbrev pub tool_is_remote : Option Fields → Bool
unfolding item_is_enabled declares
tool_is_remote none = true
tool_is_remote (some tool) = item_is_enabled tool && not (declares "mock_result" tool)

abbrev pub resource_is_remote : Option Fields → Bool
unfolding declares
resource_is_remote none = true
resource_is_remote (some resource) =
    not (declares "content" resource || declares "contents" resource)

abbrev pub prompt_is_remote : Option Fields → Bool
unfolding declares
prompt_is_remote none = true
prompt_is_remote (some prompt) = not (declares "messages" prompt)

abbrev pub is_remote : Operation → McpServer → Bool
unfolding find_item
is_remote (calls name arguments) server = tool_is_remote (find_item "name" name server.tools)
is_remote (reads uri) server = resource_is_remote (find_item "uri" uri server.resources)
is_remote (prompted name arguments) server = prompt_is_remote (find_item "name" name server.prompts)

abbrev pub method_of : Operation → String
method_of (calls name arguments) = "tools/call"
method_of (reads uri) = "resources/read"
method_of (prompted name arguments) = "prompts/get"

-- A request that an operation may send to a server of that name.
pub record IsAllowed (servers : List McpServer) (server_name : String) (operation : Operation)
    (request : McpRequest) : Type 0 where
  pub found : get_server server_name servers ≡ replies request.server
  pub is_server : IsServer server_name request.server
  pub reachable : has_transport request.server ≡ true
  pub method : request.method ≡ method_of operation
  pub remote : is_remote operation request.server ≡ true

module _ (describe : McpServer → McpFailure → String) (is_too_large : McpServer → Json → Bool)
    (ask : McpRequest → Reply Json) (servers : List McpServer) where
  unfoldable pub perform : Operation → String → Contact
  unfolding call_tool read_resource get_prompt
  perform (calls name arguments) server_name =
      call_tool describe is_too_large ask servers server_name name arguments
  perform (reads uri) server_name = read_resource describe is_too_large ask servers server_name uri
  perform (prompted name arguments) server_name =
      get_prompt describe is_too_large ask servers server_name name arguments

  -- What is asked of a server that has been found.
  abbrev at_server : Operation → String → McpServer → Contact
  unfolding tool_call resource_read prompt_get find_item
  at_server (calls name arguments) server_name server =
      tool_call describe is_too_large ask servers server_name name arguments server
        (find_item "name" name server.tools)
  at_server (reads uri) server_name server =
      resource_read describe is_too_large ask servers uri server
        (find_item "uri" uri server.resources)
  at_server (prompted name arguments) server_name server =
      prompt_get describe is_too_large ask servers name arguments server
        (find_item "name" name server.prompts)

  -- A request to a server by a method.
  record Sent (server : McpServer) (name : String) (request : McpRequest) : Type 0 where
    same : request.server ≡ server
    by : request.method ≡ name
    reachable : has_transport server ≡ true

  made-Sent :
      (server : McpServer) (name : String) (params : Fields) (request : McpRequest)
      → has_transport server ≡ true
      → some (record { server = server; method = name; params = params }) ≡ some request
      → Sent server name request
  made-Sent server name params request t h =
      let sent : record { server = server; method = name; params = params } ≡ request =
        grind (arith, h) in
      record {
        same = ap (λ (r : McpRequest). r.server) (sym sent);
        by = ap (λ (r : McpRequest). r.method) (sym sent);
        reachable = t;
      }

  run_method-Sent :
      (server : McpServer) (name : String) (params : Fields) (request : McpRequest)
      → (run_method describe is_too_large ask servers server name params).request ≡ some request
      → Sent server name request
  unfolding run_method
  run_method-Sent server name params request h = elim (Bool-cases (has_transport server)) [
    | inl e ↦ made-Sent server name params request e (rw e at h)
    | inr e ↦ absurd (grind (arith, (rw e at h)))
  ]

  tool_call-Sent :
      (server_name name : String) (arguments : Json) (server : McpServer) (tool : Option Fields)
      (request : McpRequest)
      → (tool_call describe is_too_large ask servers server_name name arguments server tool).request
        ≡ some request
      → Sent server "tools/call" request × (tool_is_remote tool ≡ true)
  unfolding tool_call tool_is_remote
  tool_call-Sent server_name name arguments server none request h =
      (run_method-Sent server "tools/call" _ request h, refl)
  tool_call-Sent server_name name arguments server (some tool) request h =
      elim (Bool-cases (item_is_enabled tool)) [
        | inl e ↦ elim (Bool-cases (declares "mock_result" tool)) [
          | inl d ↦ absurd (grind (arith, (rw (e, d) at h)))
          | inr d ↦ (run_method-Sent server "tools/call" _ request (rw (e, d) at h), rw (e, d) refl)
        ]
        | inr e ↦ absurd (grind (arith, (rw e at h)))
      ]

  resource_read-Sent :
      (uri : String) (server : McpServer) (resource : Option Fields) (request : McpRequest)
      → (resource_read describe is_too_large ask servers uri server resource).request ≡ some request
      → Sent server "resources/read" request × (resource_is_remote resource ≡ true)
  unfolding resource_read resource_is_remote
  resource_read-Sent uri server none request h =
      (run_method-Sent server "resources/read" _ request h, refl)
  resource_read-Sent uri server (some resource) request h =
      elim (Bool-cases (declares "content" resource)) [
        | inl e ↦ absurd (grind (arith, (rw e at h)))
        | inr e ↦ elim (Bool-cases (declares "contents" resource)) [
          | inl d ↦ absurd (grind (arith, (rw (e, d) at h)))
          | inr d ↦ elim (Bool-cases (has_transport server)) [
            | inl t ↦
                (made-Sent server "resources/read" _ request t (rw (e, d, t) at h), rw (e, d) refl)
            | inr t ↦ absurd (grind (arith, (rw (e, d, t) at h)))
          ]
        ]
      ]

  prompt_get-Sent :
      (name : String) (arguments : Option Fields) (server : McpServer) (prompt : Option Fields)
      (request : McpRequest)
      → (prompt_get describe is_too_large ask servers name arguments server prompt).request
        ≡ some request
      → Sent server "prompts/get" request × (prompt_is_remote prompt ≡ true)
  unfolding prompt_get prompt_is_remote
  prompt_get-Sent name arguments server none request h =
      (run_method-Sent server "prompts/get" _ request h, refl)
  prompt_get-Sent name arguments server (some prompt) request h =
      elim (Bool-cases (declares "messages" prompt)) [
        | inl e ↦ absurd (grind (arith, (rw e at h)))
        | inr e ↦ elim (Bool-cases (has_transport server)) [
          | inl t ↦ (made-Sent server "prompts/get" _ request t (rw (e, t) at h), rw e refl)
          | inr t ↦ absurd (grind (arith, (rw (e, t) at h)))
        ]
      ]

  at_server-Sent :
      (operation : Operation) (server_name : String) (server : McpServer) (request : McpRequest)
      → (at_server operation server_name server).request ≡ some request
      → Sent server (method_of operation) request × (is_remote operation server ≡ true)
  unfolding at_server is_remote
  at_server-Sent (calls name arguments) server_name server request h =
      tool_call-Sent server_name name arguments server (find_item "name" name server.tools) request
        h
  at_server-Sent (reads uri) server_name server request h =
      resource_read-Sent uri server (find_item "uri" uri server.resources) request h
  at_server-Sent (prompted name arguments) server_name server request h =
      prompt_get-Sent name arguments server (find_item "name" name server.prompts) request h

  perform-eq :
      (operation : Operation) (server_name : String)
      → perform operation server_name
        ≡ on_server describe is_too_large ask servers server_name (at_server operation server_name)
  unfolding perform at_server call_tool read_resource get_prompt
  perform-eq (calls name arguments) server_name = refl
  perform-eq (reads uri) server_name = refl
  perform-eq (prompted name arguments) server_name = refl

  on_server-found :
      (name : String) (next : McpServer → Contact) (server : McpServer)
      → get_server name servers ≡ replies server
      → on_server describe is_too_large ask servers name next ≡ next server
  unfolding on_server
  on_server-found name next server e = ap (on_reply describe is_too_large ask servers next) e

  on_server-missing :
      (name : String) (next : McpServer → Contact) (failure : McpFailure)
      → get_server name servers ≡ raises failure
      → on_server describe is_too_large ask servers name next ≡ locally (raises failure)
  unfolding on_server
  on_server-missing name next failure e = ap (on_reply describe is_too_large ask servers next) e

  Reply-cases :
      (reply : Reply McpServer)
      → ((server : McpServer) × (reply ≡ replies server))
        ⊎ ((failure : McpFailure) × (reply ≡ raises failure))
  Reply-cases (replies server) = inl (server, refl)
  Reply-cases (raises failure) = inr (failure, refl)

  -- A tool call, a resource read or a prompt request that is sent goes to the one configured server of
  -- that name, which is enabled and has a transport, and by the operation's own method; a tool that is
  -- configured is then enabled and has no mock result, and a resource or a prompt has no configured
  -- content.
  pub perform-IsAllowed :
      (operation : Operation) (server_name : String) (request : McpRequest)
      → (perform operation server_name).request ≡ some request
      → IsAllowed servers server_name operation request
  perform-IsAllowed operation server_name request h =
      elim (Reply-cases (get_server server_name servers)) [
        | inl (server, e) ↦
            let (sent, remote) = at_server-Sent operation server_name server request (
              rw
                (
                  perform-eq operation server_name,
                  on_server-found server_name (at_server operation server_name) server e,
                )
                at h) in
            record {
              found = e ∙ ap replies (sym sent.same);
              is_server = rw sent.same (get_server-IsServer server_name servers server e);
              reachable = rw sent.same sent.reachable;
              method = sent.by;
              remote = rw sent.same remote;
            }
        | inr (failure, e) ↦ absurd (
            grind (
              arith,
              (rw
                  (
                    perform-eq operation server_name,
                    on_server-missing server_name (at_server operation server_name) failure e,
                  )
                  at h),
            ))
      ]
