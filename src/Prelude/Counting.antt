-- ===== src/Prelude/Counting.antt =====
-- How often a number stands in a list, and lists that hold each number below a bound once.
use Prim.Native.Nat.{ℕ, zero, suc, ◌+◌, ◌≤◌, ◌<◌}
use mathlib.Core.Path.{◌≡◌, refl, sym, subst}
use mathlib.Core.Bool.{Bool, true, false, ◌||◌}
use mathlib.Core.Logic.{inl, inr}
use mathlib.Core.List.{List, [], ◌∷◌}
use native.Mathlib.Omega.{arith}
use agent_demo.Prelude.Tests.{Bool-cases, ==_iff, ltb, ◌==◌}
use agent_demo.Prelude.Lists.{length}

-- `n in numbers`
abbrev pub has : ℕ → List ℕ → Bool
has n [] = false
has n (m ∷ ms) = m == n || has n ms

abbrev one_if : Bool → ℕ
one_if true = 1
one_if false = 0

abbrev pub hits : ℕ → List ℕ → ℕ
hits n [] = 0
hits n (m ∷ ms) = one_if (m == n) + hits n ms

-- Every number stands at most once.
abbrev pub AreDistinct : List ℕ → Type 0
AreDistinct [] = Unit
AreDistinct (n ∷ ns) = (hits n ns ≡ 0) × AreDistinct ns

abbrev pub AreBelow : ℕ → List ℕ → Type 0
AreBelow bound [] = Unit
AreBelow bound (n ∷ ns) = (n < bound) × AreBelow bound ns

-- The hits of all numbers below the bound.
abbrev total : ℕ → List ℕ → ℕ
total zero ns = 0
total (suc bound) ns = hits bound ns + total bound ns

pub no_hits : (n : ℕ) (ns : List ℕ) → has n ns ≡ false → hits n ns ≡ 0
no_hits n [] h = refl
no_hits n (m ∷ ms) h = ground (arith, no_hits n ms)

total-nil : (bound : ℕ) → total bound [] ≡ 0
total-nil zero = refl
total-nil (suc bound) = omega (arith, total-nil bound)

total-cons :
    (bound n : ℕ) (ns : List ℕ) → total bound (n ∷ ns) ≡ one_if (ltb n bound) + total bound ns
total-cons zero n ns = ground arith
total-cons (suc bound) n ns = ground (arith, total-cons bound n ns)

total-AreBelow : (bound : ℕ) (ns : List ℕ) → AreBelow bound ns → total bound ns ≡ length ns
total-AreBelow bound [] h = total-nil bound
total-AreBelow bound (n ∷ ns) h =
    ground (arith, total-cons bound n ns, total-AreBelow bound ns h.1, h.0)

pub hits_bound : (n : ℕ) (ns : List ℕ) → AreDistinct ns → hits n ns ≤ 1
hits_bound n [] h = omega arith
hits_bound n (m ∷ ms) h = elim (Bool-cases (m == n)) [
  | inl e ↦
      let z : hits n ms ≡ 0 = subst (λ k. hits k ms ≡ 0) ((==_iff m n).0 e) h.0 in
      rw e (omega (arith, z))
  | inr e ↦ rw e (omega (arith, hits_bound n ms h.1))
]

total_bound : (bound : ℕ) (ns : List ℕ) → AreDistinct ns → total bound ns ≤ bound
total_bound zero ns h = omega arith
total_bound (suc bound) ns h = omega (arith, total_bound bound ns h, hits_bound bound ns h)

total_gap :
    (bound n : ℕ) (ns : List ℕ)
    → AreDistinct ns
    → n < bound
    → hits n ns ≡ 0
    → total bound ns < bound
total_gap zero n ns h k e = absurd (omega arith)
total_gap (suc bound) n ns h k e = elim (Bool-cases (bound == n)) [
  | inl same ↦
      let z : hits bound ns ≡ 0 = subst (λ i. hits i ns ≡ 0) (sym ((==_iff bound n).0 same)) e in
      omega (arith, z, total_bound bound ns h)
  | inr other ↦
      let below : n < bound = ground (arith, k, other) in
      omega (arith, total_gap bound n ns h below e, hits_bound bound ns h)
]

-- As many distinct numbers below a bound as the bound says are all the numbers below it.
pub hits_all :
    (bound n : ℕ) (ns : List ℕ)
    → AreDistinct ns
    → AreBelow bound ns
    → length ns ≡ bound
    → n < bound
    → hits n ns ≡ 1
hits_all bound n ns d b l k =
    ground (arith, total-AreBelow bound ns b, total_gap bound n ns d k, hits_bound n ns d)
