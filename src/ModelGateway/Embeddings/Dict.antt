-- ===== src/ModelGateway/Embeddings/Dict.antt =====
-- backend/app/services/model_gateway.py: the dict that _validate_embeddings fills from the rows.
use mathlib.Core.Path.{subst}
use agent_demo.Prelude.{
  ℕ, zero, suc, ◌+◌, ◌<◌, ◌≡◌, refl, ap, ◌∙◌, arith, inl, inr, Bool, false, ◌||◌, String, Option,
  none, some, [], ◌∷◌, ◌==◌, Bool-cases, ==_iff, if◌then◌else◌, length, has, AreDistinct, AreBelow,
  no_hits, str_eq, decimal,
}
use agent_demo.Json.{Json, Items, Fields, null, bool, number, text, arr, obj, nil, cons, get}
use agent_demo.ModelGateway.Embeddings.{
  Call, gives, fails, then_call, size, number_below, row_index, Indexed, indices, check_vector,
  fresh_index, add_row, add_rows,
}

-- The value that a call had to give for the next one to give one.
pub then_call_gave {ℓ κ} :
    {A : Type ℓ} {B : Type κ} (call : Call A) (next : A → Call B) (b : B)
    → then_call call next ≡ gives b
    → (a : A) × (call ≡ gives a) × (next a ≡ gives b)
then_call_gave (gives a) next b h = (a, refl, h)
then_call_gave (fails failure) next b h = absurd (grind (arith, h))

number_below_bound :
    (printed : String) (bound n : ℕ) → number_below printed bound ≡ some n → n < bound
unfolding number_below
number_below_bound printed zero n h = absurd (grind (arith, h))
number_below_bound printed (suc bound) n h = elim (Bool-cases (str_eq printed (decimal bound))) [
  | inl e ↦ grind (arith, e, h)
  | inr e ↦ omega (arith, number_below_bound printed bound n (rw e at h))
]

row_index_bound : (count : ℕ) (value : Json) (n : ℕ) → row_index count value ≡ some n → n < count
unfolding row_index
row_index_bound count (number printed) n h = number_below_bound printed count n h
row_index_bound count null n h = absurd (grind (arith, h))
row_index_bound count (bool b) n h = absurd (grind (arith, h))
row_index_bound count (text s) n h = absurd (grind (arith, h))
row_index_bound count (arr items) n h = absurd (grind (arith, h))
row_index_bound count (obj fields) n h = absurd (grind (arith, h))

fresh_index_gave :
    (found : Option ℕ) (indexed : Indexed) (n : ℕ)
    → fresh_index found indexed ≡ gives n
    → (found ≡ some n) × (has n (indices indexed) ≡ false)
fresh_index_gave none indexed n h = absurd (grind (arith, h))
fresh_index_gave (some m) indexed n h = elim (Bool-cases (has m (indices indexed))) [
  | inl e ↦ absurd (grind (arith, e, h))
  | inr e ↦
      let same : m ≡ n = grind (arith, e, h) in
      (ap (λ k. some k) same, subst (λ k. has k (indices indexed) ≡ false) same e)
]

module _ (is_finite : Json → Bool) (dimensions count : ℕ) where
  check_vector_gave :
      (value : Json) (vector : Items)
      → check_vector is_finite dimensions count value ≡ gives vector
      → (value ≡ arr vector) × (size vector ≡ dimensions)
  unfolding check_vector
  check_vector_gave (arr items) vector h = grind (arith, h)
  check_vector_gave null vector h = absurd (grind (arith, h))
  check_vector_gave (bool b) vector h = absurd (grind (arith, h))
  check_vector_gave (number n) vector h = absurd (grind (arith, h))
  check_vector_gave (text s) vector h = absurd (grind (arith, h))
  check_vector_gave (obj fields) vector h = absurd (grind (arith, h))

  -- What a row adds.
  record Added (row : Json) (indexed after : Indexed) : Type 0 where
    pub fields : Fields
    pub index : ℕ
    pub vector : Items
    pub is_object : row ≡ obj fields
    pub has_index : row_index count (get "index" fields) ≡ some index
    pub has_vector : get "embedding" fields ≡ arr vector
    pub is_long : size vector ≡ dimensions
    pub is_new : has index (indices indexed) ≡ false
    pub then_dict : after ≡ (index, vector) ∷ indexed

  add_row_gave :
      (row : Json) (indexed after : Indexed)
      → add_row is_finite dimensions count row indexed ≡ gives after
      → Added row indexed after
  unfolding add_row
  add_row_gave (obj fields) indexed after h =
      let (index, e, rest) = then_call_gave _ _ after h in
      let (vector, f, last) = then_call_gave _ _ after rest in
      let (g, new) = fresh_index_gave _ indexed index e in
      let (v, long) = check_vector_gave _ vector f in
      record {
        fields = fields;
        index = index;
        vector = vector;
        is_object = refl;
        has_index = g;
        has_vector = v;
        is_long = long;
        is_new = new;
        then_dict = grind (arith, last);
      }
  add_row_gave null indexed after h = absurd (grind (arith, h))
  add_row_gave (bool b) indexed after h = absurd (grind (arith, h))
  add_row_gave (number n) indexed after h = absurd (grind (arith, h))
  add_row_gave (text s) indexed after h = absurd (grind (arith, h))
  add_row_gave (arr items) indexed after h = absurd (grind (arith, h))

abbrev pub entry : Option ℕ → Json → Option (ℕ × Items)
entry (some index) (arr vector) = some (index, vector)
entry _ _ = none

-- The index and the vector that a row names.
abbrev row_vector : ℕ → Json → Option (ℕ × Items)
row_vector count (obj fields) =
    entry (row_index count (get "index" fields)) (get "embedding" fields)
row_vector count _ = none

abbrev pub named : ℕ → Option (ℕ × Items) → Option Items → Option Items
named index none rest = rest
named index (some (other, vector)) rest = if other == index then some vector else rest

-- The vector of the first row that names an index.
unfoldable pub vector_for : ℕ → ℕ → Items → Option Items
vector_for count index nil = none
vector_for count index (cons row rows) =
    named index (row_vector count row) (vector_for count index rows)

abbrev pub find_vector : ℕ → Indexed → Option Items
find_vector index [] = none
find_vector index ((other, vector) ∷ indexed) =
    if other == index then some vector else find_vector index indexed

abbrev pub AreLong : ℕ → Indexed → Type 0
AreLong dimensions [] = Unit
AreLong dimensions ((index, vector) ∷ indexed) =
    (size vector ≡ dimensions) × AreLong dimensions indexed

-- A dict of vectors that are long enough, under distinct indices below the count.
pub record IsDict (dimensions count : ℕ) (indexed : Indexed) : Type 0 where
  pub distinct : AreDistinct (indices indexed)
  pub below : AreBelow count (indices indexed)
  pub long : AreLong dimensions indexed

row_vector_of :
    (count : ℕ) (fields : Fields) (index : ℕ) (vector : Items)
    → row_index count (get "index" fields) ≡ some index
    → get "embedding" fields ≡ arr vector
    → row_vector count (obj fields) ≡ some (index, vector)
row_vector_of count fields index vector e f = rw (e, f) refl

found_or_absent :
    (i : ℕ) (indexed : Indexed)
    → find_vector i indexed ≡ (if has i (indices indexed) then find_vector i indexed else none)
found_or_absent i [] = refl
found_or_absent i ((other, vector) ∷ indexed) = elim (Bool-cases (other == i)) [
  | inl e ↦ rw e refl
  | inr e ↦ rw e (found_or_absent i indexed)
]

entry_added :
    (index i : ℕ) (vector : Items) (indexed : Indexed) (rest : Option Items)
    → has index (indices indexed) ≡ false
    → (if index == i || has i (indices indexed)
        then (if index == i then some vector else find_vector i indexed)
        else rest)
      ≡ (if has i (indices indexed)
          then find_vector i indexed
          else (if index == i then some vector else rest))
entry_added index i vector indexed rest new = elim (Bool-cases (index == i)) [
  | inl e ↦
      let absent : has i (indices indexed) ≡ false =
        subst (λ k. has k (indices indexed) ≡ false) ((==_iff index i).0 e) new in
      rw (e, absent) refl
  | inr e ↦ rw e refl
]

module _ (is_finite : Json → Bool) (dimensions count : ℕ) where
  row_names :
      {row : Json} {indexed after : Indexed}
      (a : Added is_finite dimensions count row indexed after)
      → row_vector count row ≡ some (a.index, a.vector)
  row_names a =
      ap (λ r. row_vector count r) a.is_object
      ∙ row_vector_of count a.fields a.index a.vector a.has_index a.has_vector

  pub record Filled (rows : Items) (indexed after : Indexed) : Type 0 where
    pub is_dict : IsDict dimensions count after
    pub counted : length (indices after) ≡ size rows + length (indices indexed)
    pub found :
        (i : ℕ)
        → find_vector i after
          ≡ (if has i (indices indexed) then find_vector i indexed else vector_for count i rows)

  pub add_rows-Filled :
      (rows : Items) (indexed after : Indexed)
      → IsDict dimensions count indexed
      → add_rows is_finite dimensions count rows indexed ≡ gives after
      → Filled rows indexed after
  unfolding add_rows vector_for
  add_rows-Filled nil indexed after d h =
      let same : indexed ≡ after = grind (arith, h) in
      subst (λ m. Filled nil indexed m) same
        (record { is_dict = d; counted = omega arith; found = λ i. found_or_absent i indexed })
  add_rows-Filled (cons row rows) indexed after d h =
      let (middle, e, rest) =
        then_call_gave (add_row is_finite dimensions count row indexed) _ after h in
      let a = add_row_gave is_finite dimensions count row indexed middle e in
      let f =
        add_rows-Filled rows ((a.index, a.vector) ∷ indexed) after
          (record {
            distinct = (no_hits a.index (indices indexed) a.is_new, d.distinct);
            below = (row_index_bound count (get "index" a.fields) a.index a.has_index, d.below);
            long = (a.is_long, d.long);
          })
          (subst (λ m. add_rows is_finite dimensions count rows m ≡ gives after) a.then_dict
            rest) in
      record {
        is_dict = f.is_dict;
        counted = omega (arith, f.counted);
        found =
            λ i. f.found i ∙ rw (row_names a) (entry_added a.index i a.vector indexed _ a.is_new);
      }
