-- ===== src/Chunking/Slices.antt =====
-- What a slice of a list is, and the joining of slices that overlap.
use agent_demo.Prelude.{
  CodePoints, ℕ, zero, suc, ◌+◌, ◌-◌, ◌≤◌, ◌≡◌, refl, sym, ap, ◌∙◌, arith, [], ◌∷◌, ◌++◌, length,
  take, drop, length-take, length-drop, take-append-drop,
}
use agent_demo.Chunking.{slice}

drop_nil : (n : ℕ) → drop {A = ℕ} n [] ≡ []
drop_nil zero = refl
drop_nil (suc n) = refl

pub drop-drop : (m n k : ℕ) (xs : CodePoints) → n + m ≡ k → drop m (drop n xs) ≡ drop k xs
drop-drop m zero k xs h = ap (λ i. drop i xs) (omega arith)
drop-drop m (suc n) k [] h = drop_nil m ∙ sym (drop_nil k)
drop-drop m (suc n) zero (x ∷ xs) h = absurd (omega arith)
drop-drop m (suc n) (suc k) (x ∷ xs) h = drop-drop m n k xs (omega arith)

pub drop-append : (n : ℕ) (xs ys : CodePoints) → n ≤ length xs → drop n (xs ++ ys) ≡ drop n xs ++ ys
drop-append zero xs ys h = refl
drop-append (suc n) [] ys h = absurd (omega arith)
drop-append (suc n) (x ∷ xs) ys h = drop-append n xs ys (omega arith)

pub length-slice :
    (start end : ℕ) (text : CodePoints)
    → start ≤ end
    → end ≤ length text
    → length (slice start end text) ≡ end - start
length-slice start end text h k =
    omega (arith, length-take (end - start) (drop start text), length-drop start text)

-- A slice and what stands behind it.
pub slice-append-drop :
    (start end : ℕ) (text : CodePoints)
    → start ≤ end
    → slice start end text ++ drop end text ≡ drop start text
slice-append-drop start end text h =
    ap (λ rest. slice start end text ++ rest)
      (sym (drop-drop (end - start) start end text (omega arith)))
    ∙ take-append-drop (end - start) (drop start text)

take_all : (n : ℕ) (xs : CodePoints) → length xs ≤ n → take n xs ≡ xs
take_all zero [] h = refl
take_all zero (x ∷ xs) h = absurd (omega arith)
take_all (suc n) [] h = refl
take_all (suc n) (x ∷ xs) h = ap (λ rest. x ∷ rest) (take_all n xs (omega arith))

-- A slice up to the end of the text.
pub slice_rest :
    (start : ℕ) (text : CodePoints)
    → start ≤ length text
    → slice start (length text) text ≡ drop start text
slice_rest start text h =
    take_all (length text - start) (drop start text) (omega (arith, length-drop start text))
