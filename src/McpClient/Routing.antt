-- ===== src/McpClient/Routing.antt =====
-- backend/app/mcp/client.py: which server a request goes to, and where the items of a catalog lead.
use mathlib.Core.Path.{subst}
use agent_demo.Prelude.{
  ◌≡◌, refl, ap, sym, ◌∙◌, arith, inl, inr, true, false, String, some, List, [], ◌∷◌, str_eq,
  eq_iff, Bool-cases, Option-cases,
}
use agent_demo.Json.{Json, Fields, text, obj, end, field, get}
use agent_demo.McpClient.{McpFailure, Reply, replies, raises, declares, CatalogKind, then_reply}
use agent_demo.McpClient.Catalog.{reply_then}
use agent_demo.McpClient.Calls.{
  McpServer, find_server, get_server, item_is_enabled, with_field, with_route, routed, put_first,
  catalog, reraised, values_of,
}

-- The keys of a dict after an update.
get-with_field :
    (key : String) (value : Json) (fields : Fields) → get key (with_field key value fields) ≡ value
unfolding get with_field
get-with_field key value end = rw ((eq_iff key key).1 refl) refl
get-with_field key value (field k v rest) = elim (Bool-cases (str_eq k key)) [
  | inl e ↦ rw (e, e) refl
  | inr e ↦ rw (e, e) (get-with_field key value rest)
]

-- Two keys that differ, where the entry's key is the first.
entry_apart :
    (k key other : String) → str_eq k key ≡ true → str_eq key other ≡ false → str_eq k other ≡ false
entry_apart k key other e apart = rw ((eq_iff k key).0 e) apart

get-with_field_apart :
    (key other : String) (value : Json) (fields : Fields)
    → str_eq key other ≡ false
    → get other (with_field key value fields) ≡ get other fields
unfolding get with_field
get-with_field_apart key other value end apart = rw apart refl
get-with_field_apart key other value (field k v rest) apart = elim (Bool-cases (str_eq k key)) [
  | inl e ↦ rw (e, entry_apart k key other e apart) refl
  | inr e ↦ rw (e, get-with_field_apart key other value rest apart) refl
]

declares-with_field_apart :
    (key other : String) (value : Json) (fields : Fields)
    → str_eq key other ≡ false
    → declares other (with_field key value fields) ≡ declares other fields
unfolding declares with_field
declares-with_field_apart key other value end apart = rw apart refl
declares-with_field_apart key other value (field k v rest) apart =
    elim (Bool-cases (str_eq k key)) [
      | inl e ↦ rw (e, entry_apart k key other e apart) refl
      | inr e ↦ rw (e, declares-with_field_apart key other value rest apart) refl
    ]

item_is_enabled-with_field :
    (key : String) (value : Json) (fields : Fields)
    → str_eq key "enabled" ≡ false
    → item_is_enabled (with_field key value fields) ≡ item_is_enabled fields
unfolding item_is_enabled
item_is_enabled-with_field key value fields apart =
    rw
      (
        declares-with_field_apart key "enabled" value fields apart,
        get-with_field_apart key "enabled" value fields apart,
      )
      refl

-- An item that is enabled and has the route to a server.
pub record IsRouted (server : McpServer) (item : Json) : Type 0 where
  pub fields : Fields
  pub made : item ≡ obj fields
  pub to_server : get "server_name" fields ≡ text server.name
  pub over : get "transport" fields ≡ text server.transport
  pub enabled : item_is_enabled fields ≡ true

pub data AllRouted (server : McpServer) : List Json → Type 0 where
  nothing : AllRouted server []
  also :
      (item : Json) (items : List Json)
      → IsRouted server item
      → AllRouted server items
      → AllRouted server (item ∷ items)

with_route-IsRouted :
    (server : McpServer) (item : Fields)
    → item_is_enabled item ≡ true
    → IsRouted server (obj (with_route server item))
unfolding with_route
with_route-IsRouted server item h =
    let named = with_field "server_name" (text server.name) item in
    record {
      fields = with_field "transport" (text server.transport) named;
      made = refl;
      to_server =
          get-with_field_apart "transport" "server_name" (text server.transport) named refl
          ∙ get-with_field "server_name" (text server.name) item;
      over = get-with_field "transport" (text server.transport) named;
      enabled =
          item_is_enabled-with_field "transport" (text server.transport) named refl
          ∙ item_is_enabled-with_field "server_name" (text server.name) item refl
          ∙ h;
    }

put_first-AllRouted :
    (server : McpServer) (item : Fields) (items : List Json)
    → AllRouted server items
    → AllRouted server (put_first (item_is_enabled item) (obj (with_route server item)) items)
put_first-AllRouted server item items all = elim (Bool-cases (item_is_enabled item)) [
  | inl e ↦ rw e (also _ items (with_route-IsRouted server item e) all)
  | inr e ↦ rw e all
]

routed-AllRouted :
    (server : McpServer) (items values : List Json)
    → routed server items ≡ replies values
    → AllRouted server values
unfolding routed
routed-AllRouted server [] values h =
    let made : [] ≡ values = grind (arith, h) in
    subst (λ (v : List Json). AllRouted server v) made nothing
routed-AllRouted server (obj item ∷ items) values h =
    let (more, m, r) = reply_then (routed server items) _ values h in
    let made : put_first (item_is_enabled item) (obj (with_route server item)) more ≡ values =
      grind (arith, r) in
    subst (λ (v : List Json). AllRouted server v) made
      (put_first-AllRouted server item more (routed-AllRouted server items more m))
routed-AllRouted server (_ ∷ items) values h = absurd (grind (arith, h))

-- The server that a name leads to: it has that name, and it is enabled.
pub record IsServer (name : String) (server : McpServer) : Type 0 where
  pub named : server.name ≡ name
  pub enabled : server.enabled ≡ true

found_server :
    (name : String) (servers : List McpServer) (server : McpServer)
    → find_server name servers ≡ some server
    → server.name ≡ name
found_server name [] server h = absurd (grind (arith, h))
found_server name (first ∷ servers) server h = elim (Option-cases (find_server name servers)) [
  | inl e ↦ elim (Bool-cases (str_eq first.name name)) [
    | inl n ↦
        let same : first ≡ server = grind (arith, (rw (e, n) at h)) in
        ap (λ (s : McpServer). s.name) (sym same) ∙ (eq_iff first.name name).0 n
    | inr n ↦ absurd (grind (arith, (rw (e, n) at h)))
  ]
  | inr (later, e) ↦ found_server name servers server (e ∙ (rw e at h))
]

pub get_server-IsServer :
    (name : String) (servers : List McpServer) (server : McpServer)
    → get_server name servers ≡ replies server
    → IsServer name server
unfolding get_server
get_server-IsServer name servers server h = elim (Option-cases (find_server name servers)) [
  | inl e ↦ absurd (grind (arith, (rw e at h)))
  | inr (found, e) ↦ elim (Bool-cases found.enabled) [
    | inl n ↦
        let same : found ≡ server = grind (arith, (rw (e, n) at h)) in
        record {
          named = found_server name servers server (e ∙ ap some same);
          enabled = ap (λ (s : McpServer). s.enabled) (sym same) ∙ n;
        }
    | inr n ↦ absurd (grind (arith, (rw (e, n) at h)))
  ]
]

replies-reraised {ℓ} :
    {A : Type ℓ} (describe : McpFailure → String) (reply : Reply A) (a : A)
    → reraised describe reply ≡ replies a
    → reply ≡ replies a
replies-reraised describe (replies b) a h = h
replies-reraised describe (raises failure) a h = absurd (grind (arith, h))

pub catalog-AllRouted :
    (describe : McpServer → McpFailure → String) (server : McpServer) (kind : CatalogKind)
    (discovered : Reply (List Json)) (values : List Json)
    → catalog describe server kind discovered ≡ replies values
    → AllRouted server values
unfolding catalog
catalog-AllRouted describe server kind discovered values h =
    let r =
      replies-reraised (describe server)
        (then_reply (values_of server kind discovered) (routed server)) values h in
    let (items, _, made) = reply_then (values_of server kind discovered) (routed server) values r in
    routed-AllRouted server items values made
