-- ===== src/ScheduleDispatch/Occurrence.antt =====
-- backend/app/services/task_schedules.py: the occurrence that a dispatch serves.
use native.Mathlib.Nat.{lt-div-mul-add, div-mul-le_self}
use agent_demo.Prelude.{
  ℕ, zero, suc, ◌+◌, ◌-◌, max, ◌≤◌, ◌<◌, ◌≡◌, arith, inl, inr, Option, none, some, leb, leb→le,
  Bool-cases, or_else,
}
use agent_demo.Outcome.{Result, ok, err, Result-cases}
use agent_demo.Task.{Time, seconds}
use agent_demo.Schedules.{
  Zones, Schedule, DateTime, ScheduleKind, interval, daily, once, unsupported, as_utc,
  next_daily_run,
}
use agent_demo.Schedules.NextRun.{next_daily_run_ahead}
use agent_demo.ScheduleDispatch.{
  aware, latest_interval, catch_up, latest_of_kind, latest_due_on, latest_due_occurrence,
}

latest_interval_bounds :
    (now length occurrence : ℕ)
    → 60 ≤ length
    → occurrence ≤ now
    → (occurrence ≤ latest_interval now length occurrence)
      × (latest_interval now length occurrence ≤ now)
      × (now < latest_interval now length occurrence + seconds length)
unfolding latest_interval
latest_interval_bounds now length occurrence h k =
    let a = lt-div-mul-add {a = now - occurrence} {b = seconds length} (omega arith) in
    let b = div-mul-le_self (now - occurrence) (seconds length) in ground (arith, a, b)

-- An occurrence that a due run is brought up to.
abbrev Between : Time → Time → Result (Option Time) → Type 0
Between due now (err error) = Unit
Between due now (ok none) = ⊥
Between due now (ok (some at)) = (due ≤ at) × (at ≤ now)

-- The loop over the days ends within as many rounds as there are microseconds to go, and one.
catch_up-Between :
    (zones : Zones) (schedule : Schedule) (due now fuel occurrence candidate : ℕ)
    → due ≤ occurrence
    → occurrence ≤ now
    → now < candidate + fuel
    → Between due now (catch_up zones schedule now (suc fuel) occurrence candidate)
unfolding catch_up
catch_up-Between zones schedule due now zero occurrence candidate h k l =
    elim (Bool-cases (leb candidate now)) [
      | inr ahead ↦ rw ahead (h, k)
      | inl behind ↦ absurd (omega (arith, leb→le candidate now behind))
    ]
catch_up-Between zones schedule due now (suc fuel) occurrence candidate h k l =
    elim (Bool-cases (leb candidate now)) [
      | inr ahead ↦ rw ahead (h, k)
      | inl behind ↦
          elim (Result-cases
            (next_daily_run zones candidate schedule.timezone schedule.daily_time)) [
              | inr (error, e) ↦ rw (behind, e) tt
              | inl (next, e) ↦
                  let ahead =
                    next_daily_run_ahead zones candidate schedule.timezone schedule.daily_time next
                      e in
                  let c = leb→le candidate now behind in
                  rw (behind, e)
                    (catch_up-Between zones schedule due now fuel (max occurrence candidate) next
                      (omega arith) (omega arith) (omega arith))
            ]
    ]

latest_of_kind-Between :
    (zones : Zones) (schedule : Schedule) (kind : ScheduleKind) (due now fuel : ℕ)
    → due ≤ now
    → seconds 259200 ≤ fuel
    → Between due now (latest_of_kind zones schedule now (suc fuel) kind due)
unfolding latest_of_kind
latest_of_kind-Between zones schedule once due now fuel h k = (omega arith, h)
latest_of_kind-Between zones schedule (unsupported name) due now fuel h k = (omega arith, h)
latest_of_kind-Between zones schedule interval due now fuel h k =
    elim (Bool-cases (leb 60 (or_else schedule.interval_seconds 0))) [
      | inr e ↦ rw e tt
      | inl e ↦
          let b =
            latest_interval_bounds now (or_else schedule.interval_seconds 0) due
              (leb→le 60 (or_else schedule.interval_seconds 0) e) h in
          rw e (b.0, b.1)
    ]
latest_of_kind-Between zones schedule daily due now fuel h k =
    elim (Result-cases
      (next_daily_run zones (now - seconds 259200) schedule.timezone schedule.daily_time)) [
        | inr (error, e) ↦ rw e tt
        | inl (first, e) ↦
            let ahead =
              next_daily_run_ahead zones (now - seconds 259200) schedule.timezone
                schedule.daily_time first e in
            rw e
              (catch_up-Between zones schedule due now fuel due first (omega arith) h (omega arith))
      ]

latest_due_on-Between :
    (zones : Zones) (schedule : Schedule) (due : DateTime) (now fuel : ℕ)
    → schedule.next_run_at ≡ some due
    → due.instant ≤ now
    → seconds 259200 ≤ fuel
    → Between due.instant now (latest_due_on (suc fuel) zones schedule now)
unfolding latest_due_on as_utc
latest_due_on-Between zones schedule due now fuel e h k = elim (Bool-cases due.is_aware) [
  | inr naive ↦ rw (e, naive) tt
  | inl aware ↦
      rw (e, aware) (latest_of_kind-Between zones schedule schedule.kind due.instant now fuel h k)
]

Between-found :
    (due now : Time) (result : Result (Option Time)) (found : Option Time)
    → Between due now result
    → result ≡ ok found
    → (at : Time) × (found ≡ some at) × (due ≤ at) × (at ≤ now)
Between-found due now (err error) found b h = absurd (grind (arith, h))
Between-found due now (ok none) found b h = absurd b
Between-found due now (ok (some at)) found b h = (at, grind (arith, h), b.0, b.1)

-- The occurrence that a dispatch serves: for a schedule that is due, the search for it ends, whatever
-- its kind, and the occurrence lies between the run that was due and now.
pub latest_due_occurrence_found :
    (zones : Zones) (schedule : Schedule) (due : DateTime) (now : Time) (found : Option Time)
    → schedule.next_run_at ≡ some due
    → due.instant ≤ now
    → latest_due_occurrence zones schedule now ≡ ok found
    → (at : Time) × (found ≡ some at) × (due.instant ≤ at) × (at ≤ now)
unfolding latest_due_occurrence
latest_due_occurrence_found zones schedule due now found e h r =
    Between-found due.instant now (latest_due_on (seconds 259200 + 1) zones schedule now) found
      (latest_due_on-Between zones schedule due now (seconds 259200) e h (omega arith)) r
