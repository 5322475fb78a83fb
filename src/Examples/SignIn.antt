-- ===== src/Examples/SignIn.antt =====
-- Three attempts of one address on one account, of which the limits let two pass.
use agent_demo.Prelude.{◌≡◌, ◌≤◌, ◌+◌, refl, arith, ℕ, String, none, List, [], ◌∷◌, concat, str_eq}
use agent_demo.AuthLimits.{
  Readings, micros, Settings, Request, Table, ip_key, account_key, admit_auth_request,
}
use agent_demo.AuthLimits.Buckets.{IsTimely, InWindow}
use agent_demo.AuthLimits.Windows.{admitted, admitted_bounded}

abbrev settings : Settings
settings = record {
  auth_rate_ip_limit = 5;
  auth_rate_account_limit = 2;
  auth_rate_window_seconds = 60;
}

abbrev same : String → String
same text = text

abbrev readings : ℕ → Readings
readings now = record {
  inserted_at = now;
  count_test = now + 1;
  reset_test = now + 2;
  renewed_at = now + 3;
  answered_at = now + 4;
}

abbrev at : ℕ → Request
at now = record {
  ip = "10.0.0.7";
  username = "ann";
  ip_clock = readings now;
  account_clock = readings (now + 10);
  selected = ("old", now + 20) ∷ [];
}

abbrev attempts : List Request
attempts = at 1000 ∷ at 2000 ∷ at 3000 ∷ []

abbrev no_rows : Table
no_rows key = none

two_pass :
    admitted same same settings
      (λ r. str_eq (account_key same same settings r) "account:10.0.0.7:ann")
      attempts
      no_rows
    ≡ 2
unfolding admit_auth_request account_key concat
two_pass = refl

timely : (now : ℕ) → 1000 ≤ now → now ≤ 3010 → IsTimely 1000 (1000 + micros 60) (readings now)
timely now h k = record {
  inserted_after = h;
  in_order = omega arith;
  tested_before = omega arith;
  renewed_after = omega arith;
}

inside : (now : ℕ) → 1000 ≤ now → now ≤ 3000 → InWindow same same settings 1000 (at now)
inside now h k = record {
  ip_timely = timely now h (omega arith);
  account_timely = timely (now + 10) (omega arith) (omega arith);
  cleanup_before = (omega arith, tt);
}

admitted_bounded_example :
    (admitted same same settings
        (λ r. str_eq (ip_key same same settings r) "ip:10.0.0.7")
        attempts
        no_rows
      ≤ 10)
    × (admitted same same settings
          (λ r. str_eq (account_key same same settings r) "ip:10.0.0.7")
          attempts
          no_rows
        ≤ 4)
admitted_bounded_example = admitted_bounded same same settings "ip:10.0.0.7" 1000 attempts no_rows (
  inside 1000 (omega arith) (omega arith),
  (inside 2000 (omega arith) (omega arith), (inside 3000 (omega arith) (omega arith), tt)),
)
