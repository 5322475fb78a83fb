-- ===== src/ModelGateway/Embeddings/Ordered.antt =====
-- backend/app/services/model_gateway.py: the vectors of an embedding response in the order of their indices.
use mathlib.Core.Path.{subst}
use agent_demo.Prelude.{
  ℕ, zero, suc, ◌+◌, ◌<◌, ◌≡◌, refl, sym, ap, ◌∙◌, arith, inl, inr, Bool, Option, none, some, List,
  [], ◌∷◌, ◌==◌, Bool-cases, length, hits, hits_all,
}
use agent_demo.Json.{Json, Items}
use agent_demo.ModelGateway.Embeddings.{
  gives, size, Indexed, indices, lookup_vector, add_rows, in_order,
}
use agent_demo.ModelGateway.Embeddings.Dict.{
  vector_for, find_vector, AreLong, IsDict, add_rows-Filled,
}

-- `vectors[i]`
abbrev pub nth_vector : ℕ → List Items → Option Items
nth_vector i [] = none
nth_vector zero (vector ∷ vectors) = some vector
nth_vector (suc i) (vector ∷ vectors) = nth_vector i vectors

pub lookup_vector_found :
    (i : ℕ) (indexed : Indexed)
    → hits i (indices indexed) ≡ 1
    → (vector : Items) × (lookup_vector i indexed ≡ gives vector)
      × (find_vector i indexed ≡ some vector)
unfolding lookup_vector
lookup_vector_found i [] h = absurd (omega arith)
lookup_vector_found i ((other, vector) ∷ indexed) h = elim (Bool-cases (other == i)) [
  | inl e ↦ (vector, rw e refl, rw e refl)
  | inr e ↦
      let (v, f, g) = lookup_vector_found i indexed (ground (arith, e, h)) in (v, rw e f, rw e g)
]

pub find_vector_long :
    (dimensions i : ℕ) (indexed : Indexed) (vector : Items)
    → AreLong dimensions indexed
    → find_vector i indexed ≡ some vector
    → size vector ≡ dimensions
find_vector_long dimensions i [] vector l h = absurd (grind (arith, h))
find_vector_long dimensions i ((other, first) ∷ indexed) vector l h =
    elim (Bool-cases (other == i)) [
      | inl e ↦
          let same : first ≡ vector = grind (arith, e, h) in
          subst (λ v. size v ≡ dimensions) same l.0
      | inr e ↦ find_vector_long dimensions i indexed vector l.1 (rw e at h)
    ]

pub record Listed (first left : ℕ) (indexed : Indexed) (vectors : List Items) : Type 0 where
  pub counted : length vectors ≡ left
  pub placed : (i : ℕ) → i < left → nth_vector i vectors ≡ find_vector (first + i) indexed

placed_step :
    (first left : ℕ) (indexed : Indexed) (vector : Items) (vectors : List Items)
    → find_vector first indexed ≡ some vector
    → ((i : ℕ) → i < left → nth_vector i vectors ≡ find_vector (suc first + i) indexed)
    → (i : ℕ) → i < suc left
    → nth_vector i (vector ∷ vectors) ≡ find_vector (first + i) indexed
placed_step first left indexed vector vectors g p zero k =
    sym g ∙ ap (λ j. find_vector j indexed) (omega arith)
placed_step first left indexed vector vectors g p (suc i) k =
    p i (omega arith) ∙ ap (λ j. find_vector j indexed) (omega arith)

module _ (is_finite : Json → Bool) (dimensions count : ℕ) where
  -- The comprehension over the indices meets each of them.
  pub in_order-Listed :
      (first left : ℕ) (indexed : Indexed)
      → ((i : ℕ) → i < count → hits i (indices indexed) ≡ 1)
      → first + left ≡ count
      → (vectors : List Items) × (in_order is_finite dimensions count first left indexed
          ≡ gives vectors)
        × Listed first left indexed vectors
  unfolding in_order
  in_order-Listed first zero indexed h e =
      ([], refl, record { counted = refl; placed = λ i k. absurd (omega arith) })
  in_order-Listed first (suc left) indexed h e =
      let (vector, f, g) = lookup_vector_found first indexed (h first (omega arith)) in
      let (vectors, more, l) = in_order-Listed (suc first) left indexed h (omega arith) in
      (
        vector ∷ vectors,
        rw (f, more) refl,
        record {
          counted = omega (arith, l.counted);
          placed = placed_step first left indexed vector vectors g l.placed;
        },
      )

  -- The dict that a complete list of rows fills.
  pub record Complete (rows : Items) (dict : Indexed) : Type 0 where
    pub is_dict : IsDict dimensions count dict
    pub each : (i : ℕ) → i < count → hits i (indices dict) ≡ 1
    pub found : (i : ℕ) → find_vector i dict ≡ vector_for count i rows

  pub add_rows-Complete :
      (rows : Items) (dict : Indexed)
      → size rows ≡ count
      → add_rows is_finite dimensions count rows [] ≡ gives dict
      → Complete rows dict
  add_rows-Complete rows dict h e =
      let empty : IsDict dimensions count [] = record { distinct = tt; below = tt; long = tt } in
      let f = add_rows-Filled is_finite dimensions count rows [] dict empty e in
      record {
        is_dict = f.is_dict;
        each = λ i k.
            hits_all count i (indices dict) f.is_dict.distinct f.is_dict.below
              (omega (arith, f.counted, h)) k;
        found = f.found;
      }
