-- ===== src/McpClient/Listing.antt =====
-- backend/app/mcp/client.py: what a server's catalog lists over time, with the cache of it.
use mathlib.Core.Path.{subst}
use agent_demo.Prelude.{
  ℕ, ◌+◌, ltb, ◌≡◌, refl, ap, ◌∙◌, arith, inl, inr, String, Option, none, some, List, Bool-cases,
}
use agent_demo.Json.{Json}
use agent_demo.McpClient.{McpFailure, Reply, replies, raises, CatalogKind}
use agent_demo.McpClient.Calls.{
  McpServer, get_server, catalog, list_catalog, CachedCatalog, stored, fresh_or,
}
use agent_demo.McpClient.Routing.{AllRouted, get_server-IsServer, catalog-AllRouted}

pub data CacheIsRouted (server : McpServer) : Option CachedCatalog → Type 0 where
  empty : CacheIsRouted server none
  filled :
      (cached : CachedCatalog) → AllRouted server cached.values → CacheIsRouted server (some cached)

-- A listing with a cache after it: both are routed.
record ListsRouted (server : McpServer) (listing : Reply (List Json) × Option CachedCatalog)
    : Type 0 where
  lists : (values : List Json) → listing.0 ≡ replies values → AllRouted server values
  keeps : CacheIsRouted server listing.1

stored-ListsRouted :
    (server : McpServer) (expires_at : ℕ) (cached : Option CachedCatalog)
    (reply : Reply (List Json))
    → CacheIsRouted server cached
    → ((values : List Json) → reply ≡ replies values → AllRouted server values)
    → ListsRouted server (stored expires_at cached reply)
stored-ListsRouted server expires_at cached (replies values) c all = record {
  lists = all;
  keeps = filled _ (all values refl);
}
stored-ListsRouted server expires_at cached (raises failure) c all = record {
  lists = all;
  keeps = c;
}

fresh_or-ListsRouted :
    (server : McpServer) (now : ℕ) (cached : Option CachedCatalog)
    (anew : Reply (List Json) × Option CachedCatalog)
    → CacheIsRouted server cached
    → ListsRouted server anew
    → ListsRouted server (fresh_or now cached anew)
fresh_or-ListsRouted server now none anew c l = l
fresh_or-ListsRouted server now (some cached) anew (filled _ all) l =
    elim (Bool-cases (ltb now cached.expires_at)) [
      | inl e ↦ rw e (record {
        lists = λ values h.
            let same : cached.values ≡ values = grind (arith, h) in
            subst (λ (v : List Json). AllRouted server v) same all;
        keeps = filled cached all;
      })
      | inr e ↦ rw e l
    ]

list_catalog-ListsRouted :
    (describe : McpServer → McpFailure → String) (server : McpServer) (kind : CatalogKind)
    (now later : ℕ) (discovered : Reply (List Json)) (cached : Option CachedCatalog)
    → CacheIsRouted server cached
    → ListsRouted server (list_catalog describe server kind now later discovered cached)
unfolding list_catalog
list_catalog-ListsRouted describe server kind now later discovered cached c =
    fresh_or-ListsRouted server now cached _ c (
      stored-ListsRouted server (later + server.discovery_cache_time) cached
        (catalog describe server kind discovered) c
        (catalog-AllRouted describe server kind discovered))

-- What the cache holds of a server's catalog after any listings and invalidations.
pub data IsCached (describe : McpServer → McpFailure → String) (server : McpServer)
    (kind : CatalogKind) : Option CachedCatalog → Type 0 where
  invalidated : IsCached describe server kind none
  after_listing :
      (now later : ℕ) (discovered : Reply (List Json)) (cached : Option CachedCatalog)
      → IsCached describe server kind cached
      → IsCached describe server kind
          ((list_catalog describe server kind now later discovered cached).1)

IsCached-CacheIsRouted :
    (describe : McpServer → McpFailure → String) (server : McpServer) (kind : CatalogKind)
    (cached : Option CachedCatalog)
    → IsCached describe server kind cached
    → CacheIsRouted server cached
IsCached-CacheIsRouted describe server kind _ invalidated = empty
IsCached-CacheIsRouted describe server kind _ (after_listing now later discovered cached before) =
    (list_catalog-ListsRouted describe server kind now later discovered cached
      (IsCached-CacheIsRouted describe server kind cached before)).keeps

-- After any listings and invalidations of the cache, every item of the catalog that is listed for a
-- server is enabled and names that server and its transport, whatever the server itself sent for these
-- fields; that name leads back to the server.
pub list_catalog-AllRouted :
    (describe : McpServer → McpFailure → String) (servers : List McpServer) (name : String)
    (server : McpServer) (kind : CatalogKind) (now later : ℕ) (discovered : Reply (List Json))
    (cached : Option CachedCatalog) (values : List Json)
    → get_server name servers ≡ replies server
    → IsCached describe server kind cached
    → (list_catalog describe server kind now later discovered cached).0 ≡ replies values
    → (get_server server.name servers ≡ replies server) × AllRouted server values
list_catalog-AllRouted describe servers name server kind now later discovered cached values g c h =
    (
      ap (λ (n : String). get_server n servers) (get_server-IsServer name servers server g).named
          ∙ g,
      (list_catalog-ListsRouted describe server kind now later discovered cached
            (IsCached-CacheIsRouted describe server kind cached c)).lists
          values h,
    )
