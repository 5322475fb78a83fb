-- ===== src/AuthLimits.antt =====
-- backend/app/services/auth_limits.py: admit_auth_request, the limits on sign-in attempts. The table of
-- buckets is a function of the key; `digest` is the hexadecimal SHA-256 of a text, `casefold` is
-- str.casefold, and times are instants in microseconds.
pub mod Buckets
pub mod Windows
use agent_demo.Prelude.{
  ℕ, ◌+◌, ◌-◌, ◌*◌, ◌/◌, min, max, Bool, true, false, ◌&&◌, String, Option, none, some, List, [],
  ◌∷◌, ltb, leb, ◌==◌, if◌then◌else◌, str_eq, concat, take,
}
use agent_demo.Outcome.{Error, http, Result, ok, err}

-- A row of AuthRateLimit.
pub record Bucket : Type 0 where
  pub count : ℕ
  pub reset_at : ℕ

abbrev pub Table : Type 0
Table = String → Option Bucket

pub record Settings : Type 0 where
  pub auth_rate_ip_limit : ℕ
  pub auth_rate_account_limit : ℕ
  pub auth_rate_window_seconds : ℕ

-- The readings of the clock in a bucket's statement: for the inserted row, the two tests of an existing
-- row, its new reset, and the answer.
pub record Readings : Type 0 where
  pub inserted_at : ℕ
  pub count_test : ℕ
  pub reset_test : ℕ
  pub renewed_at : ℕ
  pub answered_at : ℕ

-- A request, with the readings of the clock for its statements, and the keys that the clean-up selects,
-- each with the reading of its test.
pub record Request : Type 0 where
  pub ip : String
  pub username : String
  pub ip_clock : Readings
  pub account_clock : Readings
  pub selected : List (String × ℕ)

abbrev pub micros : ℕ → ℕ
micros seconds = seconds * 1000000

abbrev is_expired : ℕ → Bucket → Bool
is_expired now bucket = leb bucket.reset_at now

-- The row after the insertion or its update on conflict.
abbrev pub counted : ℕ → Readings → Option Bucket → Bucket
counted window clock none = record { count = 1; reset_at = clock.inserted_at + micros window }
counted window clock (some bucket) = record {
  count = if is_expired clock.count_test bucket then 1 else bucket.count + 1;
  reset_at =
      if is_expired clock.reset_test bucket
      then clock.renewed_at + micros window
      else bucket.reset_at;
}

unfoldable pub write : String → Option Bucket → Table → Table
write key row table other = if str_eq key other then row else table other

-- `retry_after`, from the seconds that remain until the reset, rounded up.
unfoldable pub retry_after : ℕ → ℕ → Bucket → ℕ
retry_after window now bucket = max 1 (min window ((bucket.reset_at - now + 999999) / 1000000))

-- Whether the clean-up deletes a row: an hour has passed since its reset.
abbrev pub is_old : ℕ → Option Bucket → Bool
is_old now none = false
is_old now (some bucket) = ltb (bucket.reset_at + micros 3600) now

unfoldable pub delete_old : List (String × ℕ) → Table → Table
unfolding write
delete_old [] table = table
delete_old ((key, now) ∷ keys) table =
    let rest = delete_old keys in
    if is_old now (table key) then rest (write key none table) else rest table

abbrev pub first_over : Table × ℕ → Table × ℕ → Table × ℕ
first_over first second = if ltb 0 first.1 then first else second

abbrev too_many : Error
too_many = http 429 "Too many sign-in attempts. Try again shortly."

abbrev pub answer : ℕ → Result (Unit {0})
answer retry = if ltb 0 retry then err too_many else ok tt

module _ (digest : String → String) (casefold : String → String) (settings : Settings) where
  unfoldable pub ip_key : Request → String
  unfolding concat
  ip_key request = digest (concat ("ip:" ∷ request.ip ∷ []))

  unfoldable pub account_key : Request → String
  unfolding concat
  account_key request =
      digest (concat ("account:" ∷ request.ip ∷ ":" ∷ casefold request.username ∷ []))

  -- One bucket of the loop: the table after its statement, and `retry_after`, where 0 goes on.
  unfoldable pub take_bucket : String → ℕ → Readings → Table → Table × ℕ
  unfolding write retry_after
  take_bucket key limit clock table =
      let bucket = counted settings.auth_rate_window_seconds clock (table key) in
      (
        write key (some bucket) table,
        if ltb limit bucket.count
            then retry_after settings.auth_rate_window_seconds clock.answered_at bucket
            else 0,
      )

  -- The first bucket's statement alone.
  unfoldable pub take_ip : Request → Table → Table × ℕ
  unfolding take_bucket ip_key
  take_ip request table =
      take_bucket (ip_key request) settings.auth_rate_ip_limit request.ip_clock table

  unfoldable pub take_account : Request → Table → Table × ℕ
  unfolding take_bucket account_key
  take_account request table =
      take_bucket (account_key request) settings.auth_rate_account_limit request.account_clock table

  -- The loop over the two buckets, which stops at the first one that is over its limit.
  unfoldable pub take_buckets : Request → Table → Table × ℕ
  unfolding take_ip take_account
  take_buckets request table =
      first_over (take_ip request table) (take_account request (take_ip request table).0)

  -- The table that is committed, and the answer.
  unfoldable pub admit_auth_request : Request → Table → Table × Result (Unit {0})
  unfolding take_buckets delete_old
  admit_auth_request request table =
      let (taken, retry) = take_buckets request table in
      (delete_old (take 100 request.selected) taken, answer retry)
