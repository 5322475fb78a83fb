-- ===== src/Schedules/NextRun.antt =====
-- backend/app/services/task_schedules.py: where the next run of a schedule lies.
use native.Mathlib.Nat.{lt-div-mul-add, div-mul-le_self, add-mul}
use agent_demo.Prelude.{
  ℕ, suc, zero, ◌+◌, ◌-◌, ◌*◌, ◌/◌, ◌≤◌, ◌<◌, ◌≡◌, inl, inr, refl, arith, String, true, Option,
  none, some, leb, max, Bool-cases,
}
use agent_demo.Outcome.{Error, ok, err, Result-cases}
use agent_demo.Task.{Time, seconds}
use agent_demo.Schedules.{
  DateTime, DayTime, Zones, ScheduleKind, once, interval, daily, unsupported, Schedule, as_utc,
  validate_timezone, search_days, next_daily_run, daily_at, once_at, interval_from, first_interval,
  initial_of_kind, next_of_kind, next_interval, initial_next_run, skip_missed,
  next_run_after_occurrence,
}

pub raised_at : (e : Error) (r : Time) → err e ≡ ok r → ⊥
raised_at e r h = cc

module _ (zones : Zones) where
  search_days_ahead :
      (zone : String) (at : DayTime) (now : Time) (days day : ℕ) (r : Time)
      → search_days zones zone at now days day ≡ ok r
      → now < r
  unfolding search_days
  search_days_ahead zone at now zero day r h = cc
  search_days_ahead zone at now (suc days) day r h =
      ground (arith, search_days_ahead zone at now days (day + 1) r)

  daily_at_ahead :
      (now : Time) (name : String) (parsed : Option DayTime) (r : Time)
      → daily_at zones now name parsed ≡ ok r
      → now < r
  unfolding daily_at
  daily_at_ahead now name none r h = cc
  daily_at_ahead now name (some at) r h = elim (Result-cases (validate_timezone zones name)) [
    | inl (zone, e) ↦ search_days_ahead zone at now 370 (zones.local_day zone now) r (rw e at h)
    | inr (e, v) ↦ absurd (raised_at e r (rw v at h))
  ]

  pub next_daily_run_ahead :
      (now : Time) (name : String) (daily_time : Option String) (r : Time)
      → next_daily_run zones now name daily_time ≡ ok r
      → now < r
  unfolding next_daily_run
  next_daily_run_ahead now name none r h = cc
  next_daily_run_ahead now name (some text) r h =
      daily_at_ahead now name (zones.parse_time text) r h

  once_at_ahead :
      (now : Time) (run_at : Option DateTime) (r : Time) → once_at now run_at ≡ ok r → now < r
  unfolding once_at as_utc
  once_at_ahead now run_at r h = ground arith

  interval_from_ahead :
      (now : Time) (length : Option ℕ) (run_at : Option DateTime) (r : Time)
      → interval_from now length run_at ≡ ok r
      → now < r
  unfolding interval_from first_interval as_utc
  interval_from_ahead now length run_at r h = ground arith

  initial_of_kind_ahead :
      (kind : ScheduleKind) (now : Time) (zone : String) (run_at : Option DateTime)
      (length : Option ℕ) (daily_time : Option String) (r : Time)
      → initial_of_kind zones kind now zone run_at length daily_time ≡ ok r
      → now < r
  unfolding initial_of_kind
  initial_of_kind_ahead once now zone run_at length daily_time r h = once_at_ahead now run_at r h
  initial_of_kind_ahead interval now zone run_at length daily_time r h =
      interval_from_ahead now length run_at r h
  initial_of_kind_ahead daily now zone run_at length daily_time r h =
      next_daily_run_ahead now zone daily_time r h
  initial_of_kind_ahead (unsupported name) now zone run_at length daily_time r h = cc

  -- The first run of a new schedule lies after the time it is made at, whatever its kind.
  pub initial_next_run_ahead :
      (kind : ScheduleKind) (timezone_name : String) (now : DateTime) (run_at : Option DateTime)
      (length : Option ℕ) (daily_time : Option String) (r : Time)
      → initial_next_run zones kind timezone_name now run_at length daily_time ≡ ok r
      → now.instant < r
  unfolding initial_next_run as_utc
  initial_next_run_ahead kind timezone_name now run_at length daily_time r h =
      elim (Bool-cases now.is_aware) [
        | inl aware ↦ elim (Result-cases (validate_timezone zones timezone_name)) [
          | inl (zone, e) ↦
              initial_of_kind_ahead kind now.instant zone run_at length daily_time r
                (rw (aware, e) at h)
          | inr (e, v) ↦ absurd (raised_at e r (rw (aware, v) at h))
        ]
        | inr naive ↦ absurd (raised_at _ r (rw naive at h))
      ]

whole_intervals :
    (now length candidate : ℕ)
    → 0 < length
    → candidate ≤ now
    → (now < candidate + ((now - candidate) / length + 1) * length)
      × (candidate + ((now - candidate) / length + 1) * length ≤ now + length)
whole_intervals now length candidate pos h = (
  omega (
    arith,
    add-mul ((now - candidate) / length) 1 length,
    lt-div-mul-add {a = now - candidate} {b = length} pos,
  ),
  omega (
    arith,
    add-mul ((now - candidate) / length) 1 length,
    div-mul-le_self (now - candidate) length,
  ),
)

pub skip_missed_exact :
    (now length candidate : ℕ)
    → 60 ≤ length
    → (now < skip_missed now length candidate)
      × ((k : ℕ) × (skip_missed now length candidate ≡ candidate + k * seconds length))
      × (skip_missed now length candidate ≤ max candidate (now + seconds length))
unfolding skip_missed
skip_missed_exact now length candidate h = elim (Bool-cases (leb candidate now)) [
  | inl due ↦
      let w = whole_intervals now (seconds length) candidate (omega arith) (ground arith) in
      rw due (w.0, ((now - candidate) / seconds length + 1, refl), omega (arith, w.1))
  | inr ahead ↦ rw ahead (ground arith, (0, omega arith), omega arith)
]

-- The run that follows an occurrence of an interval schedule lies after now, a whole number of
-- intervals, at least one, after the run that was due, and no further than one interval after now or
-- after the run that was due.
pub next_interval_exact :
    (zones : Zones) (schedule : Schedule) (now due : Time) (length : ℕ)
    → schedule.kind ≡ interval
    → schedule.interval_seconds ≡ some length
    → 60 ≤ length
    → schedule.next_run_at ≡ some (record { instant = due; is_aware = true })
    → (r : Time) × (next_run_after_occurrence zones schedule
          (record { instant = now; is_aware = true })
        ≡ ok (some r))
      × (now < r)
      × ((k : ℕ) × (r ≡ due + (k + 1) * seconds length))
      × (r ≤ max due now + seconds length)
unfolding next_run_after_occurrence next_of_kind next_interval as_utc
next_interval_exact zones schedule now due length k l m d =
    let (later, (n, e), near) = skip_missed_exact now length (due + seconds length) m in
    (
      skip_missed now length (due + seconds length),
      rw (k, l, d) (ground arith),
      later,
      (n, omega (arith, e, add-mul n 1 (seconds length))),
      omega (arith, near),
    )
