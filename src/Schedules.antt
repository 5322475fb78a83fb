-- ===== src/Schedules.antt =====
-- backend/app/services/task_schedules.py: when a schedule runs next. `zoneinfo` is a parameter (`Zones`),
-- and so is what Python's `int` and `time` make of an "HH:MM" text.
pub mod NextRun
use agent_demo.Prelude.{
  ℕ, suc, zero, ◌+◌, ◌-◌, ◌*◌, ◌/◌, String, Bool, true, false, not, ◌&&◌, ◌||◌, Option, none, some,
  ltb, leb, ◌==◌, if◌then◌else◌, strip, concat, [], ◌∷◌, or_else,
}
use agent_demo.Outcome.{Error, value_error, Result, ok, err, ◌>>=◌, ◌>>◌, guard}
use agent_demo.Task.{Time, seconds}

-- A datetime: its instant, and whether it carries an offset.
pub record DateTime : Type 0 where
  pub instant : Time
  pub is_aware : Bool

-- The time of a day, in minutes.
abbrev pub DayTime : Type 0
DayTime = ℕ

-- `is_zone`: `ZoneInfo(name)` is found. `local_day` is the local date of an instant. `to_utc` is the
-- instant of a local date and time with fold 0, and `round_trips` whether that instant has that
-- local date and time again.
pub record Zones : Type 0 where
  pub is_zone : String → Bool
  pub local_day : String → Time → ℕ
  pub to_utc : String → ℕ → DayTime → Time
  pub round_trips : String → ℕ → DayTime → Bool
  pub parse_time : String → Option DayTime

pub data ScheduleKind : Type 0 where
  once interval daily : ScheduleKind
  unsupported : String → ScheduleKind

pub record Schedule : Type 0 where
  pub kind : ScheduleKind
  pub timezone : String
  pub next_run_at : Option DateTime
  pub interval_seconds : Option ℕ
  pub daily_time : Option String

unfoldable pub as_utc : DateTime → Result Time
as_utc value =
    if value.is_aware
    then ok value.instant
    else err (value_error "Scheduled datetimes must include a timezone offset")

unfoldable pub validate_timezone : Zones → String → Result String
validate_timezone zones name =
    if zones.is_zone (strip name)
    then ok (strip name)
    else err (value_error (concat ("Unknown IANA timezone: " ∷ strip name ∷ [])))

-- The loop over `range(370)`: `days` offsets are left, and `day` is the candidate date.
unfoldable pub search_days : Zones → String → DayTime → Time → ℕ → ℕ → Result Time
search_days zones zone at now zero day =
    err (value_error "No valid daily occurrence in the next year")
search_days zones zone at now (suc days) day =
    let later = search_days zones zone at now days (day + 1) in
    if not (zones.round_trips zone day at)
    then later
    else if ltb now (zones.to_utc zone day at)
    then ok (zones.to_utc zone day at)
    else later

daily_at : Zones → Time → String → Option DayTime → Result Time
unfolding search_days validate_timezone
daily_at zones now name none = err (value_error "daily_time must use HH:MM in 24-hour time")
daily_at zones now name (some at) = do
  zone ← validate_timezone zones name
  search_days zones zone at now 370 (zones.local_day zone now)

-- `_next_daily_run`
unfoldable pub next_daily_run : Zones → Time → String → Option String → Result Time
unfolding daily_at
next_daily_run zones now name none = err (value_error "daily_time is required for a daily schedule")
next_daily_run zones now name (some text) = daily_at zones now name (zones.parse_time text)

once_at : Time → Option DateTime → Result Time
unfolding as_utc
once_at now none = err (value_error "run_at is required for a one-time schedule")
once_at now (some run_at) = do
  at ← as_utc run_at
  guard (ltb now at) (value_error "run_at must be in the future")
  ok at

first_interval : Time → ℕ → Option DateTime → Result Time
unfolding as_utc
first_interval now length none = ok (now + seconds length)
first_interval now length (some run_at) = do
  at ← as_utc run_at
  ok (if ltb now at then at else now + seconds length)

interval_from : Time → Option ℕ → Option DateTime → Result Time
unfolding first_interval
interval_from now none run_at = err (value_error "interval_minutes must be at least 1")
interval_from now (some length) run_at = do
  guard (leb 60 length) (value_error "interval_minutes must be at least 1")
  first_interval now length run_at

unsupported_kind : String → Error
unsupported_kind name = value_error (concat ("Unsupported schedule kind: " ∷ name ∷ []))

initial_of_kind :
    Zones → ScheduleKind → Time → String → Option DateTime → Option ℕ → Option String → Result Time
unfolding once_at interval_from next_daily_run unsupported_kind
initial_of_kind zones once now zone run_at length daily_time = once_at now run_at
initial_of_kind zones interval now zone run_at length daily_time = interval_from now length run_at
initial_of_kind zones daily now zone run_at length daily_time =
    next_daily_run zones now zone daily_time
initial_of_kind zones (unsupported name) now zone run_at length daily_time =
    err (unsupported_kind name)

unfoldable pub initial_next_run :
    Zones
    → ScheduleKind
    → String
    → DateTime
    → Option DateTime
    → Option ℕ
    → Option String
    → Result Time
unfolding initial_of_kind as_utc validate_timezone
initial_next_run zones kind timezone_name now run_at length daily_time = do
  now_utc ← as_utc now
  zone ← validate_timezone zones timezone_name
  initial_of_kind zones kind now_utc zone run_at length daily_time

-- The whole intervals from `candidate` to `now` are skipped; both are in microseconds.
unfoldable pub skip_missed : Time → ℕ → Time → Time
skip_missed now length candidate =
    if leb candidate now
    then candidate + ((now - candidate) / seconds length + 1) * seconds length
    else candidate

abbrev pub next_or : Option DateTime → DateTime → DateTime
next_or none now = now
next_or (some at) now = at

unfoldable pub next_interval : Schedule → Time → ℕ → Result (Option Time)
unfolding as_utc skip_missed
next_interval schedule now length = do
  guard (leb 60 length) (value_error "Stored interval_seconds must be at least 60")
  at ← as_utc (next_or schedule.next_run_at (record { instant = now; is_aware = true }))
  ok (some (skip_missed now length (at + seconds length)))

unfoldable pub next_of_kind : Zones → Schedule → ScheduleKind → Time → Result (Option Time)
unfolding next_interval next_daily_run unsupported_kind
next_of_kind zones schedule once now = ok none
next_of_kind zones schedule interval now =
    next_interval schedule now (or_else schedule.interval_seconds 0)
next_of_kind zones schedule daily now = do
  at ← next_daily_run zones now schedule.timezone schedule.daily_time
  ok (some at)
next_of_kind zones schedule (unsupported name) now = err (unsupported_kind name)

unfoldable pub next_run_after_occurrence : Zones → Schedule → DateTime → Result (Option Time)
unfolding next_of_kind as_utc
next_run_after_occurrence zones schedule now = do
  now_utc ← as_utc now
  next_of_kind zones schedule schedule.kind now_utc
