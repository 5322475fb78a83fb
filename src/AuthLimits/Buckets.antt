-- ===== src/AuthLimits/Buckets.antt =====
-- backend/app/services/auth_limits.py: what a sign-in attempt takes from a bucket.
use mathlib.Core.Path.{subst}
use agent_demo.Prelude.{
  zero, suc, ℕ, ◌+◌, ◌-◌, ◌≤◌, ◌<◌, ◌≡◌, refl, ap, arith, inl, inr, Bool, true, false, ◌&&◌, String,
  Option, none, some, List, [], ◌∷◌, ltb, leb, if◌then◌else◌, Bool-cases, str_eq, eq_iff, take,
}
use agent_demo.Outcome.{is_ok}
use agent_demo.AuthLimits.{
  Readings, answer, first_over, take_ip, take_account, Bucket, Table, Settings, Request, micros,
  counted, write, retry_after, is_old, delete_old, ip_key, account_key, take_bucket, take_buckets,
  admit_auth_request,
}

-- How many more attempts a bucket can let pass before the instant `close`.
abbrev pub spare : ℕ → ℕ → Option Bucket → ℕ
spare limit close none = limit
spare limit close (some bucket) =
    if leb close bucket.reset_at then limit - bucket.count else limit - bucket.count + limit

abbrev pub one_if : Bool → ℕ
one_if true = 1
one_if false = 0

-- The readings of a bucket's statement in a stretch of time. The test of `count` comes no later than the
-- one of `reset_at`: the columns are set in their order.
pub record IsTimely (start close : ℕ) (clock : Readings) : Type 0 where
  pub inserted_after : start ≤ clock.inserted_at
  pub in_order : clock.count_test ≤ clock.reset_test
  pub tested_before : clock.reset_test < close
  pub renewed_after : start ≤ clock.renewed_at

-- The tests of the clean-up come before an instant.
abbrev pub AreBefore : ℕ → List (String × ℕ) → Type 0
AreBefore close [] = Unit
AreBefore close ((key, now) ∷ keys) = (now < close) × AreBefore close keys

take-AreBefore :
    (close n : ℕ) (keys : List (String × ℕ)) → AreBefore close keys → AreBefore close (take n keys)
take-AreBefore close zero keys b = tt
take-AreBefore close (suc n) [] b = tt
take-AreBefore close (suc n) ((key, now) ∷ keys) b = (b.0, take-AreBefore close n keys b.1)

counted_spare :
    (limit window start : ℕ) (clock : Readings) (row : Option Bucket)
    → IsTimely start (start + micros window) clock
    → spare limit (start + micros window) (some (counted window clock row))
        + one_if (leb (counted window clock row).count limit)
      ≤ spare limit (start + micros window) row
counted_spare limit window start clock none h = ground arith
counted_spare limit window start clock (some bucket) h = ground arith

old_spare :
    (limit close now : ℕ) (row : Option Bucket)
    → now < close
    → is_old now row ≡ true
    → limit ≤ spare limit close row
old_spare limit close now none k h = omega arith
old_spare limit close now (some bucket) k h = ground arith

write_same :
    (key other : String) (row : Option Bucket) (table : Table)
    → str_eq other key ≡ true
    → write other row table key ≡ row
unfolding write
write_same key other row table e = rw e refl

write_else :
    (key other : String) (row : Option Bucket) (table : Table)
    → str_eq other key ≡ false
    → write other row table key ≡ table key
unfolding write
write_else key other row table e = rw e refl

same_row : (key other : String) (table : Table) → str_eq other key ≡ true → table other ≡ table key
same_row key other table e = ap table ((eq_iff other key).0 e)

delete_one_spare :
    (limit close now : ℕ) (key other : String) (table : Table)
    → now < close
    → is_old now (table other) ≡ true
    → spare limit close (write other none table key) ≤ spare limit close (table key)
delete_one_spare limit close now key other table k old = elim (Bool-cases (str_eq other key)) [
  | inr e ↦ rw (write_else key other none table e) (omega arith)
  | inl e ↦ rw (write_same key other none table e) (
      old_spare limit close now (table key) k
        (subst (λ row. is_old now row ≡ true) (same_row key other table e) old))
]

spare-delete_old :
    (limit close : ℕ) (key : String) (keys : List (String × ℕ)) (table : Table)
    → AreBefore close keys
    → spare limit close (delete_old keys table key) ≤ spare limit close (table key)
unfolding delete_old
spare-delete_old limit close key [] table k = omega arith
spare-delete_old limit close key ((other, now) ∷ keys) table k =
    elim (Bool-cases (is_old now (table other))) [
      | inr e ↦ rw e (spare-delete_old limit close key keys table k.1)
      | inl e ↦ rw e (
          omega (
            arith,
            spare-delete_old limit close key keys (write other none table) k.1,
            delete_one_spare limit close now key other table k.0 e,
          ))
    ]

both_zero :
    (first second : Table × ℕ)
    → is_ok (answer (first_over first second).1) ≡ true
    → (first.1 ≡ 0) × (second.1 ≡ 0)
both_zero (t, m) (u, n) h = elim (Bool-cases (ltb 0 m)) [
  | inl e ↦ absurd (grind (arith, e, h))
  | inr e ↦ elim (Bool-cases (ltb 0 n)) [
    | inl f ↦ absurd (grind (arith, e, f, h))
    | inr f ↦ (ground (arith, e), ground (arith, f))
  ]
]

module _ (digest : String → String) (casefold : String → String) (settings : Settings) where
  -- The instant at which a window that opens at `start` closes.
  abbrev pub close_of : ℕ → ℕ
  close_of start = start + micros settings.auth_rate_window_seconds

  retry_positive :
      (now : ℕ) (bucket : Bucket) → 0 < retry_after settings.auth_rate_window_seconds now bucket
  unfolding retry_after
  retry_positive now bucket = omega arith

  -- A bucket's statement, on the bucket itself and on another one.
  spare-take_bucket :
      (key other : String) (limit own_limit start : ℕ) (clock : Readings) (table : Table)
      → IsTimely start (close_of start) clock
      → spare limit
            (close_of start)
            ((take_bucket digest casefold settings other own_limit clock table).0 key)
          + one_if (
              str_eq other key
              && leb (counted settings.auth_rate_window_seconds clock (table other)).count limit)
        ≤ spare limit (close_of start) (table key)
  unfolding take_bucket write
  spare-take_bucket key other limit own_limit start clock table h =
      elim (Bool-cases (str_eq other key)) [
        | inr e ↦ rw e (omega arith)
        | inl e ↦
            rw (e, same_row key other table e)
              (counted_spare limit settings.auth_rate_window_seconds start clock (table key) h)
      ]

  passes_if :
      (key : String) (limit : ℕ) (clock : Readings) (table : Table)
      → (take_bucket digest casefold settings key limit clock table).1 ≡ 0
      → leb (counted settings.auth_rate_window_seconds clock (table key)).count limit ≡ true
  unfolding take_bucket
  passes_if key limit clock table h =
      elim (Bool-cases
        (ltb limit (counted settings.auth_rate_window_seconds clock (table key)).count)) [
          | inr e ↦ ground (arith, e)
          | inl e ↦
              let retry : retry_after settings.auth_rate_window_seconds clock.answered_at
                    (counted settings.auth_rate_window_seconds clock (table key))
                  ≡ 0 =
                rw e at h in
              absurd (
                omega (
                  arith,
                  retry,
                  retry_positive clock.answered_at
                      (counted settings.auth_rate_window_seconds clock (table key)),
                ))
        ]

  -- The readings of a request lie in the window.
  pub record InWindow (start : ℕ) (request : Request) : Type 0 where
    pub ip_timely : IsTimely start (close_of start) request.ip_clock
    pub account_timely : IsTimely start (close_of start) request.account_clock
    pub cleanup_before : AreBefore (close_of start) request.selected

  -- Neither statement gives a bucket a spare attempt.
  spare-take_ip :
      (key : String) (limit start : ℕ) (request : Request) (table : Table)
      → InWindow start request
      → spare limit (close_of start) ((take_ip digest casefold settings request table).0 key)
        ≤ spare limit (close_of start) (table key)
  unfolding take_ip
  spare-take_ip key limit start request table w = omega (
    arith,
    spare-take_bucket key (ip_key digest casefold settings request) limit
        settings.auth_rate_ip_limit start request.ip_clock table w.ip_timely,
  )

  spare-take_account :
      (key : String) (limit start : ℕ) (request : Request) (table : Table)
      → InWindow start request
      → spare limit (close_of start) ((take_account digest casefold settings request table).0 key)
        ≤ spare limit (close_of start) (table key)
  unfolding take_account
  spare-take_account key limit start request table w = omega (
    arith,
    spare-take_bucket key (account_key digest casefold settings request) limit
        settings.auth_rate_account_limit start request.account_clock table w.account_timely,
  )

  admitted_takes :
      (request : Request) (table : Table)
      → is_ok (admit_auth_request digest casefold settings request table).1 ≡ true
      → ((take_ip digest casefold settings request table).1 ≡ 0)
        × ((take_account digest casefold settings request
              (take_ip digest casefold settings request table).0).1
            ≡ 0)
  unfolding admit_auth_request take_buckets
  admitted_takes request table h =
      both_zero (take_ip digest casefold settings request table)
        (take_account digest casefold settings request
          (take_ip digest casefold settings request table).0)
        h

  spare-take_buckets :
      (key : String) (limit start : ℕ) (request : Request) (table : Table)
      → InWindow start request
      → spare limit (close_of start) ((take_buckets digest casefold settings request table).0 key)
        ≤ spare limit (close_of start) ((take_ip digest casefold settings request table).0 key)
  unfolding take_buckets
  spare-take_buckets key limit start request table w =
      elim (Bool-cases (ltb 0 (take_ip digest casefold settings request table).1)) [
        | inl e ↦ rw e (omega arith)
        | inr e ↦ rw e (
            spare-take_account key limit start request
              (take_ip digest casefold settings request table).0 w)
      ]

  admit_spare :
      (key : String) (limit start : ℕ) (request : Request) (table : Table)
      → InWindow start request
      → spare limit
          (close_of start)
          ((admit_auth_request digest casefold settings request table).0 key)
        ≤ spare limit (close_of start) ((take_buckets digest casefold settings request table).0 key)
  unfolding admit_auth_request
  admit_spare key limit start request table w =
      spare-delete_old limit (close_of start) key (take 100 request.selected)
        (take_buckets digest casefold settings request table).0
        (take-AreBefore (close_of start) 100 request.selected w.cleanup_before)

  -- A request that is admitted uses a spare attempt of its address, and no request adds one.
  pub admit_spare_ip :
      (key : String) (start : ℕ) (request : Request) (table : Table)
      → InWindow start request
      → spare settings.auth_rate_ip_limit
            (close_of start)
            ((admit_auth_request digest casefold settings request table).0 key)
          + one_if (
              str_eq (ip_key digest casefold settings request) key
              && is_ok (admit_auth_request digest casefold settings request table).1)
        ≤ spare settings.auth_rate_ip_limit (close_of start) (table key)
  unfolding take_ip
  admit_spare_ip key start request table w =
      let a = admit_spare key settings.auth_rate_ip_limit start request table w in
      let b = spare-take_buckets key settings.auth_rate_ip_limit start request table w in
      let c =
        spare-take_bucket key (ip_key digest casefold settings request) settings.auth_rate_ip_limit
          settings.auth_rate_ip_limit start request.ip_clock table w.ip_timely in
      elim (Bool-cases (is_ok (admit_auth_request digest casefold settings request table).1)) [
        | inr e ↦ ground (arith, e, a, b, c)
        | inl e ↦
            let passes =
              passes_if (ip_key digest casefold settings request) settings.auth_rate_ip_limit
                request.ip_clock table (admitted_takes request table e).0 in
            ground (arith, e, a, b, c, passes)
      ]

  take_buckets_both :
      (request : Request) (table : Table)
      → (take_ip digest casefold settings request table).1 ≡ 0
      → take_buckets digest casefold settings request table
        ≡ take_account digest casefold settings request
            (take_ip digest casefold settings request table).0
  unfolding take_buckets
  take_buckets_both request table h = rw h refl

  pub admit_spare_account :
      (key : String) (start : ℕ) (request : Request) (table : Table)
      → InWindow start request
      → spare settings.auth_rate_account_limit
            (close_of start)
            ((admit_auth_request digest casefold settings request table).0 key)
          + one_if (
              str_eq (account_key digest casefold settings request) key
              && is_ok (admit_auth_request digest casefold settings request table).1)
        ≤ spare settings.auth_rate_account_limit (close_of start) (table key)
  unfolding take_account
  admit_spare_account key start request table w =
      let limit = settings.auth_rate_account_limit in
      let own = account_key digest casefold settings request in
      let a = admit_spare key limit start request table w in
      let b = spare-take_buckets key limit start request table w in
      let c = spare-take_ip key limit start request table w in
      elim (Bool-cases (is_ok (admit_auth_request digest casefold settings request table).1)) [
        | inr e ↦ ground (arith, e, a, b, c)
        | inl e ↦
            let taken = admitted_takes request table e in
            let d =
              spare-take_bucket key own limit limit start request.account_clock
                (take_ip digest casefold settings request table).0 w.account_timely in
            let passes =
              passes_if own limit request.account_clock
                (take_ip digest casefold settings request table).0 taken.1 in
            let both =
              ap (λ t. spare limit (close_of start) (t.0 key))
                (take_buckets_both request table taken.0) in
            ground (arith, e, a, both, c, d, passes)
      ]
