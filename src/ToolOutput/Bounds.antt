-- ===== src/ToolOutput/Bounds.antt =====
-- The size of a cut output, and when the cut loses nothing.
use agent_demo.Prelude.{
  ℕ, suc, ◌+◌, ◌≤◌, ◌≡◌, ◌⊎◌, inl, inr, refl, ap, String, Bool, true, false, ◌&&◌, ◌||◌, ltb, arith,
  str_eq, text_length, text_length-cut, cut, cut_all, Bool-cases, ltb→lt, ◌∙◌, ◌<◌, eq_iff,
}
use agent_demo.Json.{Json, null, bool, number, text, arr, obj, Items, nil, cons, Fields, end, field}
use agent_demo.ToolOutput.{
  Budget, spend, bounded_text, bounded, bounded_items, bounded_fields, put, is_true, mark_result,
  limit_structure, limit_output, as_fields,
}

-- The characters in the texts and keys of a value.
abbrev mutual
  pub text_size : Json → ℕ
  text_size null = 0
  text_size (bool b) = 0
  text_size (number n) = 0
  text_size (text s) = text_length s
  text_size (arr xs) = items_size xs
  text_size (obj fs) = fields_size fs

  pub items_size : Items → ℕ
  items_size nil = 0
  items_size (cons x xs) = text_size x + items_size xs

  pub fields_size : Fields → ℕ
  fields_size end = 0
  fields_size (field k v fs) = text_length k + text_size v + fields_size fs

bounded_text_size :
    (s : String) (b : Budget)
    → let (r, c) = bounded_text s b in text_size r + c.remaining ≤ b.remaining
unfolding bounded_text
bounded_text_size s b = omega (arith, text_length-cut b.remaining s)

mutual
  unfolding bounded bounded_items bounded_fields

  bounded_size :
      (j : Json) (depth : ℕ) (b : Budget)
      → let (r, c) = bounded j depth b in text_size r + c.remaining ≤ b.remaining
  bounded_size null depth b = ground arith
  bounded_size (bool v) depth b = ground arith
  bounded_size (number n) depth b = ground arith
  bounded_size (text s) depth b = ground (arith, bounded_text_size s (spend 4 b))
  bounded_size (arr xs) depth b = ground (arith, bounded_items_size xs (suc depth) (spend 4 b))
  bounded_size (obj fs) depth b = ground (arith, bounded_fields_size fs (suc depth) (spend 4 b))

  bounded_items_size :
      (xs : Items) (depth : ℕ) (b : Budget)
      → let (r, c) = bounded_items xs depth b in items_size r + c.remaining ≤ b.remaining
  bounded_items_size nil depth b = omega arith
  bounded_items_size (cons x xs) depth b =
      ground (arith, bounded_size x depth b, bounded_items_size xs depth (bounded x depth b).1)

  bounded_fields_size :
      (fs : Fields) (depth : ℕ) (b : Budget)
      → let (r, c) = bounded_fields fs depth b in fields_size r + c.remaining ≤ b.remaining
  bounded_fields_size end depth b = omega arith
  bounded_fields_size (field k v fs) depth b = ground (
    arith,
    bounded_size v depth (spend (text_length k + 4) b),
    bounded_fields_size fs depth (bounded v depth (spend (text_length k + 4) b)).1,
  )

bounded_text_whole :
    (s : String) (b : Budget)
    → let (r, c) = bounded_text s b in c.truncated ≡ false → (r ≡ text s) × (b.truncated ≡ false)
unfolding bounded_text
bounded_text_whole s b h =
    (ap text (cut_all b.remaining s (ground (arith, text_length-cut b.remaining s))), ground arith)

mutual
  unfolding bounded bounded_items bounded_fields

  bounded_whole :
      (j : Json) (depth : ℕ) (b : Budget)
      → let (r, c) = bounded j depth b in c.truncated ≡ false → (r ≡ j) × (b.truncated ≡ false)
  bounded_whole null depth b h = ground arith
  bounded_whole (bool v) depth b h = ground arith
  bounded_whole (number n) depth b h = ground arith
  bounded_whole (text s) depth b h = ground (arith, bounded_text_whole s (spend 4 b))
  bounded_whole (arr xs) depth b h = ground (arith, bounded_items_whole xs (suc depth) (spend 4 b))
  bounded_whole (obj fs) depth b h = ground (arith, bounded_fields_whole fs (suc depth) (spend 4 b))

  bounded_items_whole :
      (xs : Items) (depth : ℕ) (b : Budget)
      → let (r, c) = bounded_items xs depth b in
        c.truncated ≡ false → (r ≡ xs) × (b.truncated ≡ false)
  bounded_items_whole nil depth b h = (refl, h)
  bounded_items_whole (cons x xs) depth b h =
      ground (arith, bounded_whole x depth b, bounded_items_whole xs depth (bounded x depth b).1)

  bounded_fields_whole :
      (fs : Fields) (depth : ℕ) (b : Budget)
      → let (r, c) = bounded_fields fs depth b in
        c.truncated ≡ false → (r ≡ fs) × (b.truncated ≡ false)
  bounded_fields_whole end depth b h = (refl, h)
  bounded_fields_whole (field k v fs) depth b h = ground (
    arith,
    bounded_whole v depth (spend (text_length k + 4) b),
    bounded_fields_whole fs depth (bounded v depth (spend (text_length k + 4) b)).1,
  )

put_size :
    (key : String) (v : Bool) (fs : Fields)
    → fields_size (put key (bool v) fs) ≤ fields_size fs + text_length key
unfolding put
put_size key v end = omega arith
put_size key v (field k w fs) = ground (arith, put_size key v fs)

as_fields_size : (j : Json) → fields_size (as_fields j) ≤ text_size j + 7
unfolding text_length
as_fields_size null = omega arith
as_fields_size (bool b) = omega arith
as_fields_size (number n) = omega arith
as_fields_size (text s) = omega arith
as_fields_size (arr xs) = omega arith
as_fields_size (obj fs) = omega arith

mark_result_size :
    (output result : Json) (truncated : Bool)
    → text_size (mark_result output result truncated) ≤ text_size result + 24
unfolding mark_result text_length
mark_result_size output result false = omega arith
mark_result_size output result true =
    let marked = put "_truncated" (bool true) (as_fields result) in
    ground (
      arith,
      as_fields_size result,
      put_size "_truncated" true (as_fields result),
      put_size "isError" true marked,
    )

limit_structure_size : (n : ℕ) (output : Json) → text_size (limit_structure n output) ≤ n + 24
unfolding limit_structure
limit_structure_size n output =
    let start : Budget = record { remaining = n; truncated = false } in
    let (r, c) = bounded output 0 start in
    omega (arith, bounded_size output 0 start, mark_result_size output r c.truncated)

-- The texts and keys of a cut output hold at most the limit of characters, and 24 more for the keys
-- that mark the cut ("content", "_truncated", "isError").
pub limit_output_size : (n : ℕ) (output : Json) → text_size (limit_output n output) ≤ n + 24
unfolding limit_output
limit_output_size n (text s) = omega (arith, text_length-cut n s)
limit_output_size n null = limit_structure_size n null
limit_output_size n (bool b) = limit_structure_size n (bool b)
limit_output_size n (number m) = limit_structure_size n (number m)
limit_output_size n (arr xs) = limit_structure_size n (arr xs)
limit_output_size n (obj fs) = limit_structure_size n (obj fs)

abbrev pub has_mark : Fields → Bool
has_mark end = false
has_mark (field k v fs) = str_eq k "_truncated" && is_true v || has_mark fs

-- The output carries the mark of a cut.
abbrev pub is_marked : Json → Bool
is_marked (obj fs) = has_mark fs
is_marked _ = false

put_marks : (fs : Fields) → has_mark (put "_truncated" (bool true) fs) ≡ true
unfolding put
put_marks end = refl
put_marks (field k v fs) = ground (arith, put_marks fs)

apart : (s a b : String) → str_eq a b ≡ false → str_eq s a ≡ true → str_eq s b ≡ false
apart s a b h e = rw ((eq_iff s a).0 e) h

put_keeps_mark :
    (v : Bool) (fs : Fields) → has_mark fs ≡ true → has_mark (put "isError" (bool v) fs) ≡ true
unfolding put
put_keeps_mark v end h = cc
put_keeps_mark v (field k w fs) h =
    ground (arith, apart k "isError" "_truncated" refl, put_keeps_mark v fs)

mark_result_marks :
    (output result : Json) (truncated : Bool)
    → (mark_result output result truncated ≡ result) × (truncated ≡ false)
      ⊎ (is_marked (mark_result output result truncated) ≡ true)
unfolding mark_result
mark_result_marks output result false = inl (refl, refl)
mark_result_marks output result true =
    let marked = put "_truncated" (bool true) (as_fields result) in
    inr (ground (arith, put_marks (as_fields result), put_keeps_mark true marked))

limit_structure_marks :
    (n : ℕ) (output : Json)
    → (limit_structure n output ≡ output) ⊎ (is_marked (limit_structure n output) ≡ true)
unfolding limit_structure
limit_structure_marks n output =
    let start : Budget = record { remaining = n; truncated = false } in
    let (r, c) = bounded output 0 start in
    elim (mark_result_marks output r c.truncated) [
      | inl (same, whole) ↦ inl (same ∙ (bounded_whole output 0 start whole).0)
      | inr m ↦ inr m
    ]

widen :
    (n : ℕ) (output : Json)
    → (limit_structure n output ≡ output)
      ⊎ (is_marked (limit_structure n output) ≡ true)
      ⊎ ((s : String) × (output ≡ text s)
          × (n < text_length s)
          × (limit_structure n output ≡ text (cut n s)))
widen n output = elim (limit_structure_marks n output) [
  | inl same ↦ inl same
  | inr marked ↦ inr (inl marked)
]

-- Nothing is cut from a structured output without a mark: it comes back as it is, or as a dict that
-- holds `_truncated: true`. A plain text is cut to the limit, and comes back whole if it fits.
pub limit_output_marks :
    (n : ℕ) (output : Json)
    → (limit_output n output ≡ output)
      ⊎ (is_marked (limit_output n output) ≡ true)
      ⊎ ((s : String) × (output ≡ text s)
          × (n < text_length s)
          × (limit_output n output ≡ text (cut n s)))
unfolding limit_output
limit_output_marks n (text s) = elim (Bool-cases (ltb n (text_length s))) [
  | inl long ↦ inr (inr (s, refl, ltb→lt n (text_length s) long, refl))
  | inr fits ↦ inl (ap text (cut_all n s (ground arith)))
]
limit_output_marks n null = widen n null
limit_output_marks n (bool b) = widen n (bool b)
limit_output_marks n (number m) = widen n (number m)
limit_output_marks n (arr xs) = widen n (arr xs)
limit_output_marks n (obj fs) = widen n (obj fs)
