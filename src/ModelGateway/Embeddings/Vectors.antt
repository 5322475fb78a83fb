-- ===== src/ModelGateway/Embeddings/Vectors.antt =====
-- backend/app/services/model_gateway.py: the vectors that an embedding request gives.
use mathlib.Core.Path.{subst}
use agent_demo.Prelude.{
  true, String, ==_iff, Bool, Bool-cases, CodePoints, List, Option, [], ap, arith, drop, inl, inr,
  length, length-append, length-drop, length-take, refl, some, suc, sym, take, zero, ℕ, ◌++◌, ◌<◌,
  ◌==◌, ◌∙◌, ◌∷◌, ◌≡◌, ◌≤◌,
}
use agent_demo.Json.{Json, Items, Fields, null, bool, number, text, obj, arr, get}
use agent_demo.ModelGateway.{Settings, auth_headers}
use agent_demo.Outcome.{Result-cases}
use agent_demo.ModelGateway.Embeddings.{
  Call, Indexed, add_rows, after_headers, check_rows, embed_batch, embed_batches, embed_texts,
  gives, post_json, size, validate_embeddings, with_more,
}
use agent_demo.ModelGateway.Embeddings.Dict.{then_call_gave, vector_for, find_vector}
use agent_demo.ModelGateway.Embeddings.Ordered.{
  nth_vector, lookup_vector_found, find_vector_long, Listed, in_order-Listed, Complete,
  add_rows-Complete,
}

module _ (is_finite : Json → Bool) (dimensions count : ℕ) where
  pub record Placed (rows : Items) (vectors : List Items) (i : ℕ) : Type 0 where
    pub vector : Items
    pub in_result : nth_vector i vectors ≡ some vector
    pub in_rows : vector_for count i rows ≡ some vector
    pub long : size vector ≡ dimensions

  Complete-Placed :
      (rows : Items) (dict : Indexed) (vectors : List Items) (i : ℕ)
      → Complete is_finite dimensions count rows dict
      → Listed 0 count dict vectors
      → i < count
      → Placed rows vectors i
  Complete-Placed rows dict vectors i c l k =
      let (vector, f, g) = lookup_vector_found i dict (c.each i k) in
      record {
        vector = vector;
        in_result = l.placed i k ∙ ap (λ j. find_vector j dict) (omega arith) ∙ g;
        in_rows = sym (c.found i) ∙ g;
        long = find_vector_long dimensions i dict vector c.is_dict.long g;
      }

  record Read (rows : Items) (vectors : List Items) : Type 0 where
    pub dict : Indexed
    pub complete : Complete is_finite dimensions count rows dict
    pub listed : Listed 0 count dict vectors

  check_rows-Read :
      (rows : Items) (vectors : List Items)
      → check_rows is_finite dimensions count (arr rows) ≡ gives vectors
      → Read rows vectors
  unfolding check_rows
  check_rows-Read rows vectors h = elim (Bool-cases (size rows == count)) [
    | inr e ↦ absurd (grind (arith, e, h))
    | inl e ↦
        let (dict, f, g) =
          then_call_gave (add_rows is_finite dimensions count rows []) _ vectors (rw e at h) in
        let c =
          add_rows-Complete is_finite dimensions count rows dict ((==_iff (size rows) count).0 e)
            f in
        let (found, q, l) =
          in_order-Listed is_finite dimensions count 0 count dict c.each (omega arith) in
        let same : found ≡ vectors = grind (arith, g, q) in
        record { dict = dict; complete = c; listed = subst (λ v. Listed 0 count dict v) same l }
  ]

  check_rows_count :
      (rows : Json) (vectors : List Items)
      → check_rows is_finite dimensions count rows ≡ gives vectors
      → length vectors ≡ count
  unfolding check_rows
  check_rows_count (arr rows) vectors h = (check_rows-Read rows vectors h).listed.counted
  check_rows_count null vectors h = absurd (grind (arith, h))
  check_rows_count (bool b) vectors h = absurd (grind (arith, h))
  check_rows_count (number n) vectors h = absurd (grind (arith, h))
  check_rows_count (text s) vectors h = absurd (grind (arith, h))
  check_rows_count (obj fields) vectors h = absurd (grind (arith, h))

  validate_embeddings_count :
      (body : Fields) (vectors : List Items)
      → validate_embeddings is_finite dimensions count body ≡ gives vectors
      → length vectors ≡ count
  unfolding validate_embeddings
  validate_embeddings_count body vectors h = check_rows_count (get "data" body) vectors h

  -- Accepted vectors are as many as the texts, and the vector at an index is the one of the row that
  -- names that index, in whatever order the rows came, and has the configured dimensions.
  pub validate_embeddings-Placed :
      (body : Fields) (rows : Items) (vectors : List Items) (i : ℕ)
      → get "data" body ≡ arr rows
      → validate_embeddings is_finite dimensions count body ≡ gives vectors
      → i < count
      → (length vectors ≡ count) × Placed rows vectors i
  unfolding validate_embeddings
  validate_embeddings-Placed body rows vectors i e h k =
      let r =
        check_rows-Read rows vectors
          (subst (λ d. check_rows is_finite dimensions count d ≡ gives vectors) e h) in
      (r.listed.counted, Complete-Placed rows r.dict vectors i r.complete r.listed k)

vectors_of :
    (batch all : List Items) (more vectors : Option (List Items))
    → more ≡ some all
    → Path (Call (Option (List Items))) (gives (with_more batch more)) (gives vectors)
    → vectors ≡ some (batch ++ all)
vectors_of batch all more vectors e h =
    let same : with_more batch more ≡ vectors = grind (arith, h) in
    sym same ∙ ap (λ m. with_more batch m) e

module _ (loads : CodePoints → Option Json) (is_finite : Json → Bool) (settings : Settings) where
  embed_batch_count :
      (provider : List CodePoints → ℕ → Call CodePoints) (batch : List CodePoints)
      (vectors : List Items)
      → embed_batch loads is_finite settings provider batch ≡ gives vectors
      → length vectors ≡ length batch
  unfolding embed_batch
  embed_batch_count provider batch vectors e =
      let (body, f, g) =
        then_call_gave (post_json loads settings.llm_max_retries (provider batch)) _ vectors e in
      validate_embeddings_count is_finite settings.embedding_dimensions (length batch) body vectors
        g

  -- As many vectors as texts, by the rounds over the batches.
  embed_batches_count :
      (fuel : ℕ) (provider : List CodePoints → ℕ → Call CodePoints) (texts : List CodePoints)
      (vectors : Option (List Items))
      → 0 < settings.embedding_batch_size
      → length texts ≤ fuel
      → embed_batches loads is_finite settings fuel provider texts ≡ gives vectors
      → (all : List Items) × (vectors ≡ some all) × (length all ≡ length texts)
  unfolding embed_batches
  embed_batches_count fuel provider [] vectors h k e = ([], grind (arith, e), refl)
  embed_batches_count zero provider (first ∷ texts) vectors h k e = absurd (omega arith)
  embed_batches_count (suc fuel) provider (first ∷ texts) vectors h k e =
      let (batch, f, rest) =
        then_call_gave
          (embed_batch loads is_finite settings provider
            (take settings.embedding_batch_size (first ∷ texts)))
          _ vectors e in
      let (more, g, last) =
        then_call_gave
          (embed_batches loads is_finite settings fuel provider
            (drop settings.embedding_batch_size (first ∷ texts)))
          _ vectors rest in
      let (all, same, n) =
        embed_batches_count fuel provider (drop settings.embedding_batch_size (first ∷ texts)) more
          h (omega (arith, length-drop settings.embedding_batch_size (first ∷ texts))) g in
      (
        batch ++ all,
        vectors_of batch all more vectors same last,
        omega (
          arith,
          length-append batch all,
          n,
          embed_batch_count provider _ batch f,
          length-take settings.embedding_batch_size (first ∷ texts),
          length-drop settings.embedding_batch_size (first ∷ texts),
        ),
      )

  -- Where batches are not empty, a request for embeddings that gives something gives one vector for
  -- each text: its loop ends, and its batches miss none.
  pub embed_texts_count :
      (provider : Option String → List CodePoints → ℕ → Call CodePoints) (texts : List CodePoints)
      (vectors : Option (List Items))
      → 0 < settings.embedding_batch_size
      → embed_texts loads is_finite settings provider texts ≡ gives vectors
      → (all : List Items) × (vectors ≡ some all) × (length all ≡ length texts)
  unfolding embed_texts after_headers
  embed_texts_count provider [] vectors h e = ([], grind (arith, e), refl)
  embed_texts_count provider (first ∷ texts) vectors h e =
      elim (Result-cases (auth_headers settings.openai_api_key true)) [
        | inr (error, f) ↦ absurd (grind (arith, f, e))
        | inl (header, f) ↦
            embed_batches_count (length (first ∷ texts)) (provider header) (first ∷ texts) vectors h
              (omega arith) (rw f at e)
      ]
