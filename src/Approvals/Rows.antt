-- ===== src/Approvals/Rows.antt =====
-- The table of approvals under reads and writes by primary key.
use agent_demo.Prelude.{
  ℕ, ◌≡◌, inl, inr, refl, Bool, true, some, none, is_some, List, [], ◌∷◌, ◌++◌, arith, ◌==◌,
  if◌then◌else◌, Bool-cases,
}
use agent_demo.Approvals.{Pending, find, write, newest}

-- Ids are a primary key.
abbrev pub Unique : List Pending → Type 0
Unique [] = Unit
Unique (m ∷ ms) = (find m.id ms ≡ none) × Unique ms

pub find_id : (key : ℕ) (rows : List Pending) (m : Pending) → find key rows ≡ some m → m.id ≡ key
find_id key [] m h = cc
find_id key (x ∷ rows) m h = ground (arith, find_id key rows m)

pub find-write :
    (key : ℕ) (row : Pending) (rows : List Pending)
    → find key (write row rows) ≡ (
        if key == row.id
        then (if is_some (find key rows) then some row else none)
        else find key rows)
find-write key row [] = ground arith
find-write key row (x ∷ rows) = ground (arith, find-write key row rows)

pub write-Unique : (row : Pending) (rows : List Pending) → Unique rows → Unique (write row rows)
write-Unique row [] u = u
write-Unique row (x ∷ rows) u = elim (Bool-cases (x.id == row.id)) [
  | inl e ↦ rw e (let same : x.id ≡ row.id = ground arith in (rw (← same) u.0, u.1))
  | inr e ↦ rw e (ground (arith, find-write x.id row rows), write-Unique row rows u.1)
]

pub find-append :
    (key : ℕ) (rows : List Pending) (m : Pending)
    → find key (rows ++ m ∷ [])
      ≡ (if is_some (find key rows) then find key rows else (if m.id == key then some m else none))
find-append key [] m = refl
find-append key (x ∷ rows) m = ground (arith, find-append key rows m)

pub append-Unique :
    (rows : List Pending) (m : Pending)
    → find m.id rows ≡ none
    → Unique rows
    → Unique (rows ++ m ∷ [])
append-Unique [] m new u = (refl, tt)
append-Unique (x ∷ rows) m new u =
    (rw find-append (ground arith), append-Unique rows m (ground arith) u.1)

pub newest-find :
    (test : Pending → Bool) (rows : List Pending) (m : Pending)
    → Unique rows
    → newest test rows ≡ some m
    → (find m.id rows ≡ some m) × (test m ≡ true)
unfolding newest
newest-find test [] m u h = cc
newest-find test (x ∷ rows) m u h = ground (arith, newest-find test rows m)
