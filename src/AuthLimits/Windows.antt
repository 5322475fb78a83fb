-- ===== src/AuthLimits/Windows.antt =====
-- backend/app/services/auth_limits.py: how many sign-in attempts pass in a window of time.
use agent_demo.Prelude.{
  ℕ, ◌+◌, ◌*◌, ◌≤◌, arith, Bool, ◌&&◌, String, Option, none, some, List, [], ◌∷◌, str_eq,
}
use agent_demo.Outcome.{is_ok}
use agent_demo.AuthLimits.{
  Bucket, Table, Settings, Request, ip_key, account_key, admit_auth_request,
}
use agent_demo.AuthLimits.Buckets.{
  spare, one_if, close_of, InWindow, admit_spare_ip, admit_spare_account,
}

module _ (digest : String → String) (casefold : String → String) (settings : Settings) where
  -- How many of the requests that a test picks are admitted.
  abbrev pub admitted : (Request → Bool) → List Request → Table → ℕ
  admitted picks [] table = 0
  admitted picks (request ∷ requests) table =
      one_if (picks request && is_ok (admit_auth_request digest casefold settings request table).1)
      + admitted picks requests (admit_auth_request digest casefold settings request table).0

  abbrev pub AreInWindow : ℕ → List Request → Type 0
  AreInWindow start [] = Unit
  AreInWindow start (request ∷ requests) =
      InWindow digest casefold settings start request × AreInWindow start requests

  spare_double : (limit close : ℕ) (row : Option Bucket) → spare limit close row ≤ 2 * limit
  spare_double limit close none = omega arith
  spare_double limit close (some bucket) = ground arith

  ip_admitted :
      (key : String) (start : ℕ) (requests : List Request) (table : Table)
      → AreInWindow start requests
      → admitted (λ r. str_eq (ip_key digest casefold settings r) key) requests table
        ≤ spare settings.auth_rate_ip_limit (close_of digest casefold settings start) (table key)
  ip_admitted key start [] table w = omega arith
  ip_admitted key start (request ∷ requests) table w = omega (
    arith,
    admit_spare_ip digest casefold settings key start request table w.0,
    ip_admitted key start requests (admit_auth_request digest casefold settings request table).0
        w.1,
  )

  account_admitted :
      (key : String) (start : ℕ) (requests : List Request) (table : Table)
      → AreInWindow start requests
      → admitted (λ r. str_eq (account_key digest casefold settings r) key) requests table
        ≤ spare settings.auth_rate_account_limit
            (close_of digest casefold settings start)
            (table key)
  account_admitted key start [] table w = omega arith
  account_admitted key start (request ∷ requests) table w = omega (
    arith,
    admit_spare_account digest casefold settings key start request table w.0,
    account_admitted key start requests
        (admit_auth_request digest casefold settings request table).0 w.1,
  )

  -- Of requests that follow each other in any way, from any table, and all of whose clock readings lie
  -- in one stretch of the length of the window, where each statement tests a row for its count no later
  -- than for its reset, at most twice the address limit are admitted from one address, and at most
  -- twice the account limit for one account from one address.
  pub admitted_bounded :
      (key : String) (start : ℕ) (requests : List Request) (table : Table)
      → AreInWindow start requests
      → (admitted (λ r. str_eq (ip_key digest casefold settings r) key) requests table
          ≤ 2 * settings.auth_rate_ip_limit)
        × (admitted (λ r. str_eq (account_key digest casefold settings r) key) requests table
            ≤ 2 * settings.auth_rate_account_limit)
  admitted_bounded key start requests table w = (
    omega (
      arith,
      ip_admitted key start requests table w,
      spare_double settings.auth_rate_ip_limit (close_of digest casefold settings start)
          (table key),
    ),
    omega (
      arith,
      account_admitted key start requests table w,
      spare_double settings.auth_rate_account_limit (close_of digest casefold settings start)
          (table key),
    ),
  )
