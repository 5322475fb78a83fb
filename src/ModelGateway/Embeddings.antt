-- ===== src/ModelGateway/Embeddings.antt =====
-- backend/app/services/model_gateway.py: embed_texts, with _post_json and _validate_embeddings.
mod Dict
mod Ordered
pub mod Checked
pub mod Vectors
use agent_demo.Prelude.{
  ℕ, zero, suc, ◌+◌, ◌-◌, Bool, true, false, not, ◌&&◌, ◌||◌, String, Option, none, some, List, [],
  ◌∷◌, ◌++◌, map, ◌==◌, ltb, if◌then◌else◌, str_eq, decimal, length, take, drop, CodePoints, has,
}
use agent_demo.Json.{
  Json, Items, Fields, null, bool, number, text, arr, obj, nil, cons, end, field, get, truthy,
}
use agent_demo.Outcome.{Error, Result, ok, err, ◌>>=◌}
use agent_demo.ModelGateway.{
  Failure, raised, key_error, assertion_error, Settings, response_error, is_caught, should_retry,
  parse_object, auth_headers,
}

-- What a call gives or which exception it raises.
pub data Call {ℓ} (A : Type ℓ) : Type ℓ where
  gives : A → Call A
  fails : Failure → Call A

abbrev pub then_call {ℓ κ} : {A : Type ℓ} {B : Type κ} → Call A → (A → Call B) → Call B
then_call (gives a) next = next a
then_call (fails failure) next = fails failure

abbrev pub of_result {ℓ} : {A : Type ℓ} → Result A → Call A
of_result (ok a) = gives a
of_result (err error) = fails (raised error)

abbrev pub size : Items → ℕ
size nil = 0
size (cons item items) = suc (size items)

-- The number below `bound` that a printed integer stands for; an integer is printed in one way.
unfoldable pub number_below : String → ℕ → Option ℕ
number_below printed zero = none
number_below printed (suc bound) =
    let smaller = number_below printed bound in
    if str_eq printed (decimal bound) then some bound else smaller

-- `index` where it is an `int` and `0 <= index < count`
abbrev pub row_index : ℕ → Json → Option ℕ
unfolding number_below
row_index count (number printed) = number_below printed count
row_index count _ = none

-- A dict from indices to vectors, the latest entry first.
abbrev pub Indexed : Type 0
Indexed = List (ℕ × Items)

abbrev pub indices : Indexed → List ℕ
indices [] = []
indices ((index, vector) ∷ indexed) = index ∷ indices indexed

unfoldable pub lookup_vector : ℕ → Indexed → Call Items
lookup_vector index [] = fails key_error
lookup_vector index ((other, vector) ∷ indexed) =
    let rest = lookup_vector index indexed in if other == index then gives vector else rest

-- `all(... for value in vector)`
unfoldable pub all_valid : (Json → Bool) → Items → Bool
all_valid is_finite nil = true
all_valid is_finite (cons value values) = is_finite value && all_valid is_finite values

-- `any(vector)`
unfoldable pub any_nonzero : Items → Bool
any_nonzero nil = false
any_nonzero (cons value values) = truthy value || any_nonzero values

abbrev pub invalid : String → Call Items
invalid message = fails (raised (response_error message))

abbrev pub bad_index : Failure
bad_index = raised (response_error "Embedding response contains invalid or duplicate indices")

abbrev pub fresh_index : Option ℕ → Indexed → Call ℕ
fresh_index none indexed = fails bad_index
fresh_index (some index) indexed =
    if has index (indices indexed) then fails bad_index else gives index

module _ (is_finite : Json → Bool) (dimensions count : ℕ) where
  abbrev pub check_vector : Json → Call Items
  unfolding all_valid any_nonzero
  check_vector (arr vector) =
      if not (size vector == dimensions)
      then invalid "Embedding dimensions do not match the configured storage"
      else if not (all_valid is_finite vector)
      then invalid "Embedding response contains non-finite or non-numeric values"
      else if not (any_nonzero vector)
      then invalid "Embedding response contains a zero vector"
      else gives vector
  check_vector _ = invalid "Embedding dimensions do not match the configured storage"

  -- A round of the loop over the rows.
  unfoldable pub add_row : Json → Indexed → Call Indexed
  unfolding check_vector row_index get
  add_row (obj row) indexed =
      then_call (fresh_index (row_index count (get "index" row)) indexed) λ index.
        then_call (check_vector (get "embedding" row)) λ vector. gives ((index, vector) ∷ indexed)
  add_row _ indexed =
      fails (raised (response_error "Embedding response contains an invalid vector row"))

  unfoldable pub add_rows : Items → Indexed → Call Indexed
  unfolding add_row
  add_rows nil indexed = gives indexed
  add_rows (cons row rows) indexed = then_call (add_row row indexed) (add_rows rows)

  -- `[indexed[index] for index in range(first, first + left)]`
  unfoldable pub in_order : ℕ → ℕ → Indexed → Call (List Items)
  unfolding lookup_vector
  in_order first zero indexed = gives []
  in_order first (suc left) indexed =
      then_call (lookup_vector first indexed)
        λ vector. then_call (in_order (suc first) left indexed) λ vectors. gives (vector ∷ vectors)

  abbrev pub check_rows : Json → Call (List Items)
  unfolding add_rows in_order
  check_rows (arr rows) =
      if size rows == count
      then then_call (add_rows rows []) (in_order 0 count)
      else fails (raised (response_error "Embedding response has an unexpected number of vectors"))
  check_rows _ =
      fails (raised (response_error "Embedding response has an unexpected number of vectors"))

  unfoldable pub validate_embeddings : Fields → Call (List Items)
  unfolding check_rows get
  validate_embeddings body = check_rows (get "data" body)

-- `response.text` of an attempt, or what httpx raises.
abbrev pub or_next : ℕ → ℕ → Call Fields → Failure → Call Fields
unfolding should_retry
or_next max_retries attempt again failure =
    if is_caught failure && should_retry max_retries failure attempt then again else fails failure

abbrev pub read_body :
    (CodePoints → Option Json) → ℕ → ℕ → Call Fields → Call CodePoints → Call Fields
unfolding parse_object or_next
read_body loads max_retries attempt again (gives body) = of_result (parse_object loads body)
read_body loads max_retries attempt again (fails failure) =
    or_next max_retries attempt again failure

-- The rounds of `range(max_retries + 1)` that are left.
unfoldable pub post_from :
    (CodePoints → Option Json) → ℕ → (ℕ → Call CodePoints) → ℕ → ℕ → Call Fields
unfolding read_body
post_from loads max_retries answers zero attempt = fails assertion_error
post_from loads max_retries answers (suc left) attempt =
    let again = post_from loads max_retries answers left (suc attempt) in
    read_body loads max_retries attempt again (answers attempt)

unfoldable pub post_json : (CodePoints → Option Json) → ℕ → (ℕ → Call CodePoints) → Call Fields
unfolding post_from
post_json loads max_retries answers = post_from loads max_retries answers (suc max_retries) 0

-- `embeddings.extend(...)`
abbrev pub with_more : List Items → Option (List Items) → Option (List Items)
with_more vectors none = none
with_more vectors (some more) = some (vectors ++ more)

module _ (loads : CodePoints → Option Json) (is_finite : Json → Bool) (settings : Settings) where
  -- What the model gives for a batch of texts on each attempt.
  abbrev pub Provider : Type 0
  Provider = Option String → List CodePoints → ℕ → Call CodePoints

  unfoldable pub embed_batch :
      (List CodePoints → ℕ → Call CodePoints) → List CodePoints → Call (List Items)
  unfolding post_json validate_embeddings
  embed_batch provider batch =
      then_call (post_json loads settings.llm_max_retries (provider batch))
        (validate_embeddings is_finite settings.embedding_dimensions (length batch))

  -- The loop over the batches of `embedding_batch_size` texts, at least one; a round takes one unit of
  -- fuel, and `none` is a loop that has not ended.
  unfoldable pub embed_batches :
      ℕ → (List CodePoints → ℕ → Call CodePoints) → List CodePoints → Call (Option (List Items))
  unfolding embed_batch
  embed_batches fuel provider [] = gives (some [])
  embed_batches zero provider (first ∷ texts) = gives none
  embed_batches (suc fuel) provider (first ∷ texts) =
      then_call (embed_batch provider (take settings.embedding_batch_size (first ∷ texts)))
        λ vectors.
          then_call
            (embed_batches fuel provider (drop settings.embedding_batch_size (first ∷ texts)))
            λ more. gives (with_more vectors more)

  abbrev pub after_headers :
      Provider → List CodePoints → Result (Option String) → Call (Option (List Items))
  unfolding embed_batches
  after_headers provider texts (err error) = fails (raised error)
  after_headers provider texts (ok header) = embed_batches (length texts) (provider header) texts

  unfoldable pub embed_texts : Provider → List CodePoints → Call (Option (List Items))
  unfolding after_headers
  embed_texts provider [] = gives (some [])
  embed_texts provider (first ∷ texts) =
      after_headers provider (first ∷ texts) (auth_headers settings.openai_api_key true)
