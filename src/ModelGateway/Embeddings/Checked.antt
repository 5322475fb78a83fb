-- ===== src/ModelGateway/Embeddings/Checked.antt =====
-- backend/app/services/model_gateway.py: what an embedding response may lead to.
use agent_demo.Prelude.{
  ℕ, ◌≡◌, refl, arith, inl, inr, Bool, String, Option, none, some, [], ◌∷◌, ◌==◌, Bool-cases,
  ==_iff, has,
}
use agent_demo.Json.{Json, Items, Fields, null, bool, number, text, arr, obj, nil, cons, get}
use agent_demo.ModelGateway.{response_error, raised}
use agent_demo.ModelGateway.Embeddings.{
  all_valid, any_nonzero, Call, gives, fails, then_call, size, row_index, Indexed, indices,
  check_vector, fresh_index, add_row, add_rows, in_order, check_rows, validate_embeddings,
}
use agent_demo.ModelGateway.Embeddings.Ordered.{in_order-Listed, add_rows-Complete}

-- A call that gives a value or raises ModelResponseError.
pub data IsChecked {ℓ} {A : Type ℓ} : Call A → Type ℓ where
  given : {a : A} → IsChecked (gives a)
  refused : {message : String} → IsChecked (fails (raised (response_error message)))

then_call-IsChecked {ℓ κ} :
    {A : Type ℓ} {B : Type κ} (call : Call A) (next : A → Call B)
    → IsChecked call
    → ((a : A) → call ≡ gives a → IsChecked (next a))
    → IsChecked (then_call call next)
then_call-IsChecked (gives a) next given k = k a refl
then_call-IsChecked (fails failure) next refused k = refused

fresh_index-IsChecked :
    (found : Option ℕ) (indexed : Indexed) → IsChecked (fresh_index found indexed)
fresh_index-IsChecked none indexed = refused
fresh_index-IsChecked (some index) indexed = elim (Bool-cases (has index (indices indexed))) [
  | inl e ↦ rw e refused
  | inr e ↦ rw e given
]

module _ (is_finite : Json → Bool) (dimensions count : ℕ) where
  check_vector-IsChecked :
      (value : Json) → IsChecked (check_vector is_finite dimensions count value)
  unfolding check_vector
  check_vector-IsChecked (arr vector) = elim (Bool-cases (size vector == dimensions)) [
    | inr e ↦ rw e refused
    | inl e ↦ elim (Bool-cases (all_valid is_finite vector)) [
      | inr f ↦ rw (e, f) refused
      | inl f ↦ elim (Bool-cases (any_nonzero vector)) [
        | inr g ↦ rw (e, f, g) refused
        | inl g ↦ rw (e, f, g) given
      ]
    ]
  ]
  check_vector-IsChecked null = refused
  check_vector-IsChecked (bool b) = refused
  check_vector-IsChecked (number n) = refused
  check_vector-IsChecked (text s) = refused
  check_vector-IsChecked (obj fields) = refused

  add_row-IsChecked :
      (row : Json) (indexed : Indexed) → IsChecked (add_row is_finite dimensions count row indexed)
  unfolding add_row
  add_row-IsChecked (obj row) indexed =
      let index = fresh_index (row_index count (get "index" row)) indexed in
      let vector = check_vector is_finite dimensions count (get "embedding" row) in
      then_call-IsChecked index (λ i. then_call vector λ v. gives ((i, v) ∷ indexed))
        (fresh_index-IsChecked (row_index count (get "index" row)) indexed)
        λ i e.
          then_call-IsChecked vector (λ v. gives ((i, v) ∷ indexed))
            (check_vector-IsChecked (get "embedding" row)) λ v f. given
  add_row-IsChecked null indexed = refused
  add_row-IsChecked (bool b) indexed = refused
  add_row-IsChecked (number n) indexed = refused
  add_row-IsChecked (text s) indexed = refused
  add_row-IsChecked (arr items) indexed = refused

  add_rows-IsChecked :
      (rows : Items) (indexed : Indexed)
      → IsChecked (add_rows is_finite dimensions count rows indexed)
  unfolding add_rows
  add_rows-IsChecked nil indexed = given
  add_rows-IsChecked (cons row rows) indexed =
      then_call-IsChecked (add_row is_finite dimensions count row indexed)
        (add_rows is_finite dimensions count rows) (add_row-IsChecked row indexed)
        λ after e. add_rows-IsChecked rows after

  check_rows-IsChecked : (rows : Json) → IsChecked (check_rows is_finite dimensions count rows)
  unfolding check_rows
  check_rows-IsChecked (arr rows) = elim (Bool-cases (size rows == count)) [
    | inr e ↦ rw e refused
    | inl e ↦ rw e (
        then_call-IsChecked (add_rows is_finite dimensions count rows [])
          (in_order is_finite dimensions count 0 count) (add_rows-IsChecked rows [])
          λ dict f.
            let c =
              add_rows-Complete is_finite dimensions count rows dict
                ((==_iff (size rows) count).0 e) f in
            let (vectors, g, l) =
              in_order-Listed is_finite dimensions count 0 count dict c.each (omega arith) in
            rw g given)
  ]
  check_rows-IsChecked null = refused
  check_rows-IsChecked (bool b) = refused
  check_rows-IsChecked (number n) = refused
  check_rows-IsChecked (text s) = refused
  check_rows-IsChecked (obj fields) = refused

  -- Whatever JSON object a provider sends, its check gives vectors or raises ModelResponseError: the
  -- lookup of the vectors by index meets no missing key.
  pub validate_embeddings-IsChecked :
      (body : Fields) → IsChecked (validate_embeddings is_finite dimensions count body)
  unfolding validate_embeddings
  validate_embeddings-IsChecked body = check_rows-IsChecked (get "data" body)
