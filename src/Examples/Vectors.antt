-- ===== src/Examples/Vectors.antt =====
-- An embedding response whose two rows come in the other order, and a request of three texts in
-- batches of two.
use agent_demo.Prelude.{
  ◌≡◌, refl, arith, ℕ, Bool, true, String, Option, none, some, List, [], ◌∷◌, length, CodePoints,
  decimal, member,
}
use agent_demo.Json.{Json, Items, Fields, number, arr, obj, nil, cons, end, field, get}
use agent_demo.ModelGateway.{auth_headers}
use agent_demo.ModelGateway.Embeddings.{Call, gives, embed_texts, validate_embeddings}
use agent_demo.ModelGateway.Embeddings.Checked.{IsChecked, validate_embeddings-IsChecked}
use agent_demo.ModelGateway.Embeddings.Vectors.{
  Placed, validate_embeddings-Placed, embed_texts_count,
}
use agent_demo.Examples.Stream.{settings}

abbrev vector : String → Items
vector n = cons (number n) (cons (number "1") nil)

abbrev row : String → String → Json
row index n = obj (field "index" (number index) (field "embedding" (arr (vector n)) end))

abbrev rows : Items
rows = cons (row "1" "5") (cons (row "0" "6") nil)

abbrev body : Fields
body = field "data" (arr rows) end

abbrev is_finite : Json → Bool
is_finite value = true

validate_embeddings-IsChecked_example : IsChecked (validate_embeddings is_finite 2 2 body)
validate_embeddings-IsChecked_example = validate_embeddings-IsChecked is_finite 2 2 body

validate_embeddings-Placed_example :
    (length (vector "6" ∷ vector "5" ∷ []) ≡ 2)
    × Placed is_finite 2 2 rows (vector "6" ∷ vector "5" ∷ []) 1
unfolding validate_embeddings get decimal member
validate_embeddings-Placed_example =
    validate_embeddings-Placed is_finite 2 2 body rows (vector "6" ∷ vector "5" ∷ []) 1 refl refl
      (omega arith)

-- What the provider sends for a batch of one text or of two; the text stands for the body.
abbrev loads : CodePoints → Option Json
loads [] = none
loads (c ∷ []) = some (obj (field "data" (arr (cons (row "0" "6") nil)) end))
loads (c ∷ d ∷ text) = some (obj body)

abbrev provider : Option String → List CodePoints → ℕ → Call CodePoints
provider header batch attempt = gives (map_lengths batch)
  where
    map_lengths : List CodePoints → CodePoints
    map_lengths [] = []
    map_lengths (text ∷ texts) = 1 ∷ map_lengths texts

embed_texts_count_example :
    (all : List Items) × (some (vector "6" ∷ vector "5" ∷ vector "6" ∷ []) ≡ some all)
    × (length all ≡ 3)
unfolding embed_texts decimal member get auth_headers
embed_texts_count_example =
    embed_texts_count loads is_finite settings provider ([] ∷ [] ∷ [] ∷ [])
      (some (vector "6" ∷ vector "5" ∷ vector "6" ∷ [])) (omega arith) refl
