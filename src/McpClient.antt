-- ===== src/McpClient.antt =====
-- backend/app/mcp/client.py: the discovery of a server's catalog page by page (_pages).
-- What a server replies is an argument.
pub mod Catalog
pub mod Calls
pub mod Listing
pub mod Requests
pub mod Routing
use agent_demo.Prelude.{
  ℕ, zero, suc, ◌+◌, Bool, true, false, not, ◌&&◌, ◌||◌, String, Option, none, some, List, [], ◌∷◌,
  ◌++◌, str_eq, ltb, if◌then◌else◌, member, length,
}
use agent_demo.Json.{
  Json, Items, Fields, null, bool, number, text, arr, obj, nil, cons, end, field, get, truthy,
}

-- `unknown_method` is an MCPError with the code -32601, `foreign` any exception of another class.
pub data McpFailure : Type 0 where
  runtime : String → McpFailure
  unknown_method : McpFailure
  foreign : String → McpFailure

pub data Reply {ℓ} (A : Type ℓ) : Type ℓ where
  replies : A → Reply A
  raises : McpFailure → Reply A

abbrev pub then_reply {ℓ κ} : {A : Type ℓ} {B : Type κ} → Reply A → (A → Reply B) → Reply B
then_reply (replies a) next = next a
then_reply (raises failure) next = raises failure

pub data CatalogKind : Type 0 where
  tools resources prompts : CatalogKind

abbrev pub kind_text : CatalogKind → String
kind_text tools = "tools"
kind_text resources = "resources"
kind_text prompts = "prompts"

-- The limits of a server's discovery.
pub record Limits : Type 0 where
  pub discovery_max_pages : ℕ
  pub discovery_max_items : ℕ

abbrev identity_key : CatalogKind → String
identity_key tools = "name"
identity_key resources = "uri"
identity_key prompts = "name"

unfoldable pub identity_of : CatalogKind → Json → Json
unfolding get
identity_of kind (obj item) = get (identity_key kind) item
identity_of kind _ = null

-- Whether a set can hold the value.
abbrev pub is_hashable : Json → Bool
is_hashable (arr items) = false
is_hashable (obj fields) = false
is_hashable _ = true

-- `value in seen`, where `same` is Python's equality on JSON values.
unfoldable pub is_seen : (Json → Json → Bool) → Json → List Json → Bool
is_seen same value [] = false
is_seen same value (other ∷ seen) = same other value || is_seen same value seen

-- What the loop has gathered.
pub record Gathered : Type 0 where
  pub found : List Json
  pub seen_names : List Json

abbrev pub bad_identifiers : McpFailure
bad_identifiers = runtime "MCP catalog contains missing or duplicate identifiers"

-- A server without that kind of catalog has an empty one.
abbrev pub is_optional : CatalogKind → Bool
is_optional tools = false
is_optional resources = true
is_optional prompts = true

-- `name in fields`
unfoldable pub declares : String → Fields → Bool
declares name end = false
declares name (field key value rest) = str_eq key name || declares name rest

module _ (same : Json → Json → Bool) (limits : Limits) (kind : CatalogKind) where
  abbrev pub gathered_with : Json → Gathered → Gathered
  gathered_with item gathered = record {
    found = gathered.found ++ item ∷ [];
    seen_names = identity_of kind item ∷ gathered.seen_names;
  }

  -- A round of the loop over the items of a page.
  unfoldable pub add_item : Json → Gathered → Reply Gathered
  unfolding is_seen
  add_item item gathered =
      if not (truthy (identity_of kind item))
      then raises bad_identifiers
      else if not (is_hashable (identity_of kind item))
      then raises (foreign "TypeError")
      else if is_seen same (identity_of kind item) gathered.seen_names
      then raises bad_identifiers
      else if ltb limits.discovery_max_items (length (gathered.found ++ item ∷ []))
      then raises (runtime "MCP catalog exceeded its item limit")
      else replies (gathered_with item gathered)

  unfoldable pub add_items : Items → Gathered → Reply Gathered
  unfolding add_item
  add_items nil gathered = replies gathered
  add_items (cons item items) gathered = then_reply (add_item item gathered) (add_items items)

  abbrev pub add_batch : Json → Gathered → Reply Gathered
  unfolding add_items
  add_batch (arr batch) gathered = add_items batch gathered
  add_batch _ gathered = raises (runtime "MCP catalog response is missing its item list")

  -- A page, with the test on its size in bytes.
  abbrev pub read_page : (Fields → Bool) → Fields → Gathered → Reply Gathered
  unfolding add_batch get
  read_page is_too_large page gathered =
      if is_too_large page
      then raises (runtime "MCP catalog response exceeded its byte limit")
      else add_batch (get (kind_text kind) page) gathered

  -- The cursor of the next page; a falsy one ends the discovery.
  pub data Turn : Type 0 where
    last_page : Turn
    next_page : String → Turn
    bad_cursor : Turn

  abbrev pub string_cursor : Json → List String → Turn
  unfolding member
  string_cursor (text cursor) seen = if member cursor seen then bad_cursor else next_page cursor
  string_cursor _ seen = bad_cursor

  abbrev pub turn : Json → List String → Turn
  unfolding string_cursor
  turn value seen = if truthy value then string_cursor value seen else last_page

  abbrev pub after_turn : Gathered → (String → Reply (List Json)) → Turn → Reply (List Json)
  after_turn gathered next last_page = replies gathered.found
  after_turn gathered next (next_page cursor) = next cursor
  after_turn gathered next bad_cursor =
      raises (runtime "MCP catalog repeated an invalid pagination cursor")

  abbrev pub after_page :
      (Fields → Bool)
      → List String
      → Gathered
      → (Gathered → String → Reply (List Json))
      → Reply Fields
      → Reply (List Json)
  unfolding read_page turn get
  after_page is_too_large seen gathered next (raises unknown_method) =
      if is_optional kind then replies [] else raises unknown_method
  after_page is_too_large seen gathered next (raises (runtime message)) = raises (runtime message)
  after_page is_too_large seen gathered next (raises (foreign name)) = raises (foreign name)
  after_page is_too_large seen gathered next (replies page) =
      then_reply (read_page is_too_large page gathered)
        λ more. after_turn more (next more) (turn (get "nextCursor" page) seen)

  -- The loop over `range(discovery_max_pages)`; `ask` is the request with a cursor, empty at first.
  unfoldable pub pages_from :
      (Fields → Bool)
      → (String → Reply Fields)
      → ℕ
      → String
      → List String
      → Gathered
      → Reply (List Json)
  unfolding after_page
  pages_from is_too_large ask zero cursor seen gathered =
      raises (runtime "MCP catalog exceeded its page limit")
  pages_from is_too_large ask (suc left) cursor seen gathered =
      after_page is_too_large seen gathered
        (λ more next. pages_from is_too_large ask left next (next ∷ seen) more) (ask cursor)

  -- `capabilities` are those that the server has declared.
  unfoldable pub pages : Fields → (Fields → Bool) → (String → Reply Fields) → Reply (List Json)
  unfolding pages_from declares
  pages capabilities is_too_large ask =
      if declares (kind_text kind) capabilities
      then pages_from is_too_large ask limits.discovery_max_pages "" []
          (record { found = []; seen_names = [] })
      else replies []
