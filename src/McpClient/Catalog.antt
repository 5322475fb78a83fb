-- ===== src/McpClient/Catalog.antt =====
-- backend/app/mcp/client.py: what a discovered catalog holds.
use mathlib.Core.Path.{subst}
use agent_demo.Prelude.{
  ℕ, zero, suc, ◌≤◌, ◌≡◌, refl, ap, sym, ◌∙◌, arith, inl, inr, Bool, true, false, not, ◌&&◌, String,
  List, [], ◌∷◌, ◌++◌, Bool-cases, ltb, length,
}
use agent_demo.Json.{
  Json, Items, Fields, null, bool, number, text, arr, obj, nil, cons, get, truthy,
}
use agent_demo.McpClient.{
  runtime, unknown_method, foreign, Reply, replies, raises, then_reply, CatalogKind, Limits,
  identity_of, is_hashable, is_seen, Gathered, add_item, add_items, add_batch, read_page,
  after_turn, after_page, pages_from, pages, turn, last_page, next_page, bad_cursor, Turn,
  kind_text, is_optional, declares, gathered_with,
}

pub reply_then {ℓ κ} :
    {A : Type ℓ} {B : Type κ} (reply : Reply A) (next : A → Reply B) (b : B)
    → then_reply reply next ≡ replies b
    → (a : A) × (reply ≡ replies a) × (next a ≡ replies b)
reply_then (replies a) next b h = (a, refl, h)
reply_then (raises failure) next b h = absurd (grind (arith, h))

both_parts : (a b c : Bool) → (a && (b && c)) ≡ true → (a ≡ true) × (b ≡ true) × (c ≡ true)
both_parts true true c h = (refl, refl, h)
both_parts true false c h = absurd (grind (arith, h))
both_parts false b c h = absurd (grind (arith, h))

module _ (same : Json → Json → Bool) (limits : Limits) (kind : CatalogKind) where
  -- The identities of the items, before those of `seen`.
  abbrev seen_after : List Json → List Json → List Json
  seen_after seen [] = seen
  seen_after seen (item ∷ items) = seen_after (identity_of kind item ∷ seen) items

  -- Every item has an identity, which no earlier one has and which is not seen yet.
  abbrev pub all_new : List Json → List Json → Bool
  unfolding is_seen
  all_new seen [] = true
  all_new seen (item ∷ items) =
      truthy (identity_of kind item)
      && (not (is_seen same (identity_of kind item) seen)
          && all_new (identity_of kind item ∷ seen) items)

  seen_after-append :
      (seen items : List Json) (item : Json)
      → seen_after seen (items ++ item ∷ []) ≡ identity_of kind item ∷ seen_after seen items
  seen_after-append seen [] item = refl
  seen_after-append seen (first ∷ items) item =
      seen_after-append (identity_of kind first ∷ seen) items item

  all_new-append :
      (seen items : List Json) (item : Json)
      → all_new seen items ≡ true
      → truthy (identity_of kind item) ≡ true
      → is_seen same (identity_of kind item) (seen_after seen items) ≡ false
      → all_new seen (items ++ item ∷ []) ≡ true
  unfolding all_new
  all_new-append seen [] item h t n = rw (t, n) refl
  all_new-append seen (first ∷ items) item h t n =
      let p =
        both_parts (truthy (identity_of kind first))
          (not (is_seen same (identity_of kind first) seen))
          (all_new (identity_of kind first ∷ seen) items) h in
      rw (p.0, p.1) (all_new-append (identity_of kind first ∷ seen) items item p.2 t n)

  record IsGathered (gathered : Gathered) : Type 0 where
    pub few : length gathered.found ≤ limits.discovery_max_items
    pub new : all_new [] gathered.found ≡ true
    pub names : gathered.seen_names ≡ seen_after [] gathered.found

  added :
      (item : Json) (gathered : Gathered)
      → IsGathered gathered
      → truthy (identity_of kind item) ≡ true
      → is_seen same (identity_of kind item) gathered.seen_names ≡ false
      → length (gathered.found ++ item ∷ []) ≤ limits.discovery_max_items
      → IsGathered (gathered_with same limits kind item gathered)
  added item gathered g t n l = record {
    few = l;
    new = all_new-append [] gathered.found item g.new t (
        subst (λ (names : List Json). is_seen same (identity_of kind item) names ≡ false) g.names
          n);
    names =
        ap (λ names. identity_of kind item ∷ names) g.names
        ∙ sym (seen_after-append [] gathered.found item);
  }

  add_item-IsGathered :
      (item : Json) (gathered more : Gathered)
      → IsGathered gathered
      → add_item same limits kind item gathered ≡ replies more
      → IsGathered more
  unfolding add_item
  add_item-IsGathered item gathered more g h = elim (Bool-cases (truthy (identity_of kind item))) [
    | inr e ↦ absurd (grind (arith, (rw e at h)))
    | inl e ↦ elim (Bool-cases (is_hashable (identity_of kind item))) [
      | inr f ↦ absurd (grind (arith, (rw (e, f) at h)))
      | inl f ↦ elim (Bool-cases (is_seen same (identity_of kind item) gathered.seen_names)) [
        | inl s ↦ absurd (grind (arith, (rw (e, f, s) at h)))
        | inr s ↦
            elim (Bool-cases
              (ltb limits.discovery_max_items (length (gathered.found ++ item ∷ [])))) [
                | inl l ↦ absurd (grind (arith, (rw (e, f, s, l) at h)))
                | inr l ↦
                    let made : gathered_with same limits kind item gathered ≡ more =
                      grind (arith, (rw (e, f, s, l) at h)) in
                    subst (λ (m : Gathered). IsGathered m) made
                      (added item gathered g e s (ground (arith, l)))
              ]
      ]
    ]
  ]

  add_items-IsGathered :
      (items : Items) (gathered more : Gathered)
      → IsGathered gathered
      → add_items same limits kind items gathered ≡ replies more
      → IsGathered more
  unfolding add_items
  add_items-IsGathered nil gathered more g h =
      let made : gathered ≡ more = grind (arith, h) in subst (λ (m : Gathered). IsGathered m) made g
  add_items-IsGathered (cons item items) gathered more g h =
      let (next, e, f) = reply_then (add_item same limits kind item gathered) _ more h in
      add_items-IsGathered items next more (add_item-IsGathered item gathered next g e) f

  add_batch-IsGathered :
      (batch : Json) (gathered more : Gathered)
      → IsGathered gathered
      → add_batch same limits kind batch gathered ≡ replies more
      → IsGathered more
  unfolding add_batch
  add_batch-IsGathered (arr items) gathered more g h = add_items-IsGathered items gathered more g h
  add_batch-IsGathered null gathered more g h = absurd (grind (arith, h))
  add_batch-IsGathered (bool b) gathered more g h = absurd (grind (arith, h))
  add_batch-IsGathered (number n) gathered more g h = absurd (grind (arith, h))
  add_batch-IsGathered (text s) gathered more g h = absurd (grind (arith, h))
  add_batch-IsGathered (obj fields) gathered more g h = absurd (grind (arith, h))

  read_page-IsGathered :
      (is_too_large : Fields → Bool) (page : Fields) (gathered more : Gathered)
      → IsGathered gathered
      → read_page same limits kind is_too_large page gathered ≡ replies more
      → IsGathered more
  unfolding read_page
  read_page-IsGathered is_too_large page gathered more g h = elim (Bool-cases (is_too_large page)) [
    | inl e ↦ absurd (grind (arith, (rw e at h)))
    | inr e ↦ add_batch-IsGathered (get (kind_text kind) page) gathered more g (rw e at h)
  ]

  -- A catalog within its limit, whose items all have identities of their own.
  pub record IsCatalog (values : List Json) : Type 0 where
    pub within : length values ≤ limits.discovery_max_items
    pub distinct : all_new [] values ≡ true

  turn-IsCatalog :
      (gathered : Gathered) (next : String → Reply (List Json)) (at : Turn same limits kind)
      (values : List Json)
      → IsGathered gathered
      → ((cursor : String) → next cursor ≡ replies values → IsCatalog values)
      → after_turn same limits kind gathered next at ≡ replies values
      → IsCatalog values
  turn-IsCatalog gathered next last_page values g k h =
      let made : gathered.found ≡ values = grind (arith, h) in
      subst (λ (v : List Json). IsCatalog v) made (record { within = g.few; distinct = g.new })
  turn-IsCatalog gathered next (next_page cursor) values g k h = k cursor h
  turn-IsCatalog gathered next bad_cursor values g k h = absurd (grind (arith, h))

  empty-IsCatalog : IsCatalog []
  unfolding all_new
  empty-IsCatalog = record { within = omega arith; distinct = refl }

  page-IsCatalog :
      (is_too_large : Fields → Bool) (seen : List String) (gathered : Gathered)
      (next : Gathered → String → Reply (List Json)) (reply : Reply Fields) (values : List Json)
      → IsGathered gathered
      → ((more : Gathered) (cursor : String)
          → IsGathered more
          → next more cursor ≡ replies values
          → IsCatalog values)
      → after_page same limits kind is_too_large seen gathered next reply ≡ replies values
      → IsCatalog values
  unfolding after_page
  page-IsCatalog is_too_large seen gathered next (raises (runtime message)) values g k h =
      absurd (grind (arith, h))
  page-IsCatalog is_too_large seen gathered next (raises (foreign name)) values g k h =
      absurd (grind (arith, h))
  page-IsCatalog is_too_large seen gathered next (raises unknown_method) values g k h =
      elim (Bool-cases (is_optional kind)) [
        | inr e ↦ absurd (grind (arith, (rw e at h)))
        | inl e ↦
            let made : [] ≡ values = grind (arith, (rw e at h)) in
            subst (λ (v : List Json). IsCatalog v) made empty-IsCatalog
      ]
  page-IsCatalog is_too_large seen gathered next (replies page) values g k h =
      let (more, e, f) =
        reply_then (read_page same limits kind is_too_large page gathered) _ values h in
      let found = read_page-IsGathered is_too_large page gathered more g e in
      turn-IsCatalog more (next more) (turn same limits kind (get "nextCursor" page) seen) values
        found (λ cursor r. k more cursor found r) f

  pages_from-IsCatalog :
      (is_too_large : Fields → Bool) (ask : String → Reply Fields) (left : ℕ) (cursor : String)
      (seen : List String) (gathered : Gathered) (values : List Json)
      → IsGathered gathered
      → pages_from same limits kind is_too_large ask left cursor seen gathered ≡ replies values
      → IsCatalog values
  unfolding pages_from
  pages_from-IsCatalog is_too_large ask zero cursor seen gathered values g h =
      absurd (grind (arith, h))
  pages_from-IsCatalog is_too_large ask (suc left) cursor seen gathered values g h =
      page-IsCatalog is_too_large seen gathered
        (λ more next. pages_from same limits kind is_too_large ask left next (next ∷ seen) more)
        (ask cursor) values g
        (λ more next q r.
          pages_from-IsCatalog is_too_large ask left next (next ∷ seen) more values q r)
        h

  nothing-IsGathered : IsGathered (record { found = []; seen_names = [] })
  unfolding all_new
  nothing-IsGathered = record { few = omega arith; new = refl; names = refl }

  -- A catalog that was discovered holds at most `discovery_max_items` items, each with an identity that
  -- no other has, over however many pages, sizes and cursors the server sent it.
  pub pages-IsCatalog :
      (capabilities : Fields) (is_too_large : Fields → Bool) (ask : String → Reply Fields)
      (values : List Json)
      → pages same limits kind capabilities is_too_large ask ≡ replies values
      → IsCatalog values
  unfolding pages
  pages-IsCatalog capabilities is_too_large ask values h =
      elim (Bool-cases (declares (kind_text kind) capabilities)) [
        | inl e ↦
            pages_from-IsCatalog is_too_large ask limits.discovery_max_pages "" []
              (record { found = []; seen_names = [] }) values nothing-IsGathered (rw e at h)
        | inr e ↦
            let made : [] ≡ values = grind (arith, (rw e at h)) in
            subst (λ (v : List Json). IsCatalog v) made empty-IsCatalog
      ]
