-- ===== src/Outcome.antt =====
-- The exceptions that the modelled Python code raises, and the result of code that may raise.
use agent_demo.Prelude.{ℕ, ◌≡◌, refl, ◌⊎◌, inl, inr, String, Bool, true, false}

-- `http` is fastapi's HTTPException with its status code, `lease_lost` is TaskLeaseLost, and
-- `attribute_error` is what an access to an attribute of `None` raises. `wrong_type` is the TypeError or
-- the AttributeError for a JSON value of another type, and `key_error` is a KeyError.
pub data Error : Type 0 where
  http : ℕ → String → Error
  value_error : String → Error
  runtime_error : String → Error
  lease_lost : String → Error
  attribute_error : Error
  wrong_type : String → Error
  key_error : String → Error

-- What a call does: it returns a value or raises.
pub data Result {ℓ} (A : Type ℓ) : Type ℓ where
  ok : A → Result A
  err : Error → Result A

abbrev pub is_ok {ℓ} : {A : Type ℓ} → Result A → Bool
is_ok (ok a) = true
is_ok (err e) = false

-- The next statement runs on the value, and an exception passes through.
infixl 5 ◌>>=◌
abbrev pub ◌>>=◌ {ℓ κ} :
    {Value : Type ℓ} {Next : Type κ} → Result Value → (Value → Result Next) → Result Next
err raised >>= next = err raised
ok value >>= next = next value

-- `if not test: raise raised`
abbrev pub guard : Bool → Error → Result (Unit {0})
guard test raised = elim test [ true ↦ ok tt | false ↦ err raised ]

infixl 5 ◌>>◌
abbrev pub ◌>>◌ {κ} : {Next : Type κ} → Result (Unit {0}) → Result Next → Result Next
first >> second = first >>= λ done. second

pub Result-cases {ℓ} :
    {A : Type ℓ} (r : Result A) → ((a : A) × (r ≡ ok a)) ⊎ ((e : Error) × (r ≡ err e))
Result-cases (ok a) = inl (a, refl)
Result-cases (err e) = inr (e, refl)
