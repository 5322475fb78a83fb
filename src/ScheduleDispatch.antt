-- ===== src/ScheduleDispatch.antt =====
-- backend/app/services/task_schedules.py: the dispatch of due schedules, and
-- backend/app/api/routes/task_schedules.py: the requests that change a schedule or run it at once.
-- `print_id` and `isoformat` are what Python prints for an identifier and for a datetime in UTC.
pub mod Occurrence
pub mod NotDue
pub mod ActiveTasks
pub mod OneActive
use agent_demo.Prelude.{
  ℕ, zero, suc, ◌+◌, ◌-◌, ◌*◌, ◌/◌, max, String, Bool, true, false, not, ◌&&◌, ◌||◌, Option, none,
  some, List, [], ◌∷◌, ◌++◌, ltb, leb, ◌==◌, if◌then◌else◌, concat, or_else, is_none, take,
}
use agent_demo.Outcome.{Error, http, value_error, Result, ok, err, ◌>>=◌, ◌>>◌, guard}
use agent_demo.Task.{Task, Status, Metadata, Time, seconds, agent, queued, running, holds}
use agent_demo.TaskCreation.{blank_task}
use agent_demo.Schedules.{
  DateTime, Zones, ScheduleKind, Schedule, once, interval, daily, unsupported, as_utc,
  next_daily_run, initial_next_run, next_run_after_occurrence,
}

-- A row of task_schedules.
pub record ScheduleRow : Type 0 where
  pub id : ℕ
  pub user_id : ℕ
  pub conversation_id : Option ℕ
  pub name : String
  pub prompt : String
  pub timing : Schedule
  pub run_at : Option DateTime
  pub max_attempts : ℕ
  pub enabled : Bool
  pub misfire_grace_seconds : ℕ
  pub last_run_at : Option Time
  pub last_task_id : Option ℕ
  pub last_dispatch_status : Option String
  pub last_dispatch_at : Option Time
  pub last_dispatch_error : Option Error

abbrev pub aware : Time → DateTime
aware at = record { instant = at; is_aware = true }

-- `schedule.next_run_at or now`
abbrev pub run_or_now : Option DateTime → Time → DateTime
run_or_now none now = aware now
run_or_now (some at) now = at

-- `occurrence + int((now - occurrence) // interval) * interval`, where the quotient is rounded down.
unfoldable pub latest_interval : Time → ℕ → Time → Time
latest_interval now length occurrence =
    if leb occurrence now
    then occurrence + (now - occurrence) / seconds length * seconds length
    else occurrence - (occurrence - now + seconds length - 1) / seconds length * seconds length

-- The loop over the days; a round takes one unit of fuel, and `none` is a loop that has not ended.
unfoldable pub catch_up : Zones → Schedule → Time → ℕ → Time → Time → Result (Option Time)
unfolding next_daily_run
catch_up zones schedule now zero occurrence candidate = ok none
catch_up zones schedule now (suc fuel) occurrence candidate =
    let later = next_daily_run zones candidate schedule.timezone schedule.daily_time >>= λ next.
    catch_up zones schedule now fuel (max occurrence candidate) next in
    if leb candidate now then later else ok (some occurrence)

abbrev pub latest_of_kind : Zones → Schedule → Time → ℕ → ScheduleKind → Time → Result (Option Time)
unfolding latest_interval catch_up next_daily_run
latest_of_kind zones schedule now fuel interval occurrence = do
  guard (leb 60 (or_else schedule.interval_seconds 0))
      (value_error "Stored interval_seconds must be at least 60")
  ok (some (latest_interval now (or_else schedule.interval_seconds 0) occurrence))
latest_of_kind zones schedule now fuel daily occurrence = do
  first ← next_daily_run zones (now - seconds 259200) schedule.timezone schedule.daily_time
  catch_up zones schedule now fuel occurrence first
latest_of_kind zones schedule now fuel once occurrence = ok (some occurrence)
latest_of_kind zones schedule now fuel (unsupported kind) occurrence = ok (some occurrence)

unfoldable pub latest_due_on : ℕ → Zones → Schedule → Time → Result (Option Time)
unfolding latest_of_kind as_utc
latest_due_on fuel zones schedule now = do
  occurrence ← as_utc (run_or_now schedule.next_run_at now)
  latest_of_kind zones schedule now fuel schedule.kind occurrence

-- Each candidate lies after the one before, and the first after `now` less three days.
unfoldable pub latest_due_occurrence : Zones → Schedule → Time → Result (Option Time)
unfolding latest_due_on
latest_due_occurrence zones schedule now = latest_due_on (seconds 259200 + 1) zones schedule now

abbrev pub waits_or_runs : Status → Bool
waits_or_runs queued = true
waits_or_runs running = true
waits_or_runs _ = false

abbrev pub is_active : ℕ → Task → Bool
is_active id task = holds task.schedule_id id && waits_or_runs task.status

-- The first such task; the rows are in the order of their creation.
unfoldable pub active_schedule_task : ℕ → List Task → Option Task
active_schedule_task id [] = none
active_schedule_task id (task ∷ tasks) =
    let later = active_schedule_task id tasks in if is_active id task then some task else later

abbrev pub due_at : Time → Option DateTime → Bool
due_at now none = false
due_at now (some at) = leb at.instant now

-- `TaskSchedule.enabled and next_run_at <= now`
abbrev pub is_due : Time → ScheduleRow → Bool
is_due now row = row.enabled && due_at now row.timing.next_run_at

-- The rows that the query selects and locks, with the rows in the order of `next_run_at`.
abbrev pub select_due : Time → (ScheduleRow → Bool) → List ScheduleRow → List ScheduleRow
select_due now is_locked [] = []
select_due now is_locked (row ∷ rows) =
    let rest = select_due now is_locked rows in
    if is_due now row && not (is_locked row) then row ∷ rest else rest

module _ (print_id : ℕ → String) (isoformat : Time → String) where
  abbrev scheduled_key : ℕ → String → String
  unfolding concat
  scheduled_key id occurrence_key = concat ("schedule:" ∷ print_id id ∷ ":" ∷ occurrence_key ∷ [])

  -- `occurrence_key` is the hexadecimal form of a random number for a manual run.
  unfoldable pub build_scheduled_task : ScheduleRow → Time → ℕ → Option String → Task
  unfolding scheduled_key
  build_scheduled_task row occurrence fresh manual_key = record (blank_task fresh row.name) {
    kind = agent;
    prompt = some row.prompt;
    user_id = some row.user_id;
    conversation_id = row.conversation_id;
    schedule_id = some row.id;
    idempotency_key = some (scheduled_key row.id (or_else manual_key (isoformat occurrence)));
    max_attempts = row.max_attempts;
    next_attempt_at = some occurrence;
    deadline_at = some (occurrence + seconds 900);
    metadata = record {
      events = [];
      request_fingerprint = none;
      scheduled_for = some occurrence;
      dispatched_manually = not (is_none manual_key);
    };
  }

  -- What a dispatch leaves: the schedule's row, the tasks, and the new task's id.
  pub record Dispatched : Type 0 where
    pub row : ScheduleRow
    pub tasks : List Task
    pub new_id : Option ℕ

  abbrev pub touched : ScheduleRow → Time → ScheduleRow
  touched row now = record row { last_dispatch_at = some now; last_dispatch_error = none }

  abbrev pub invalid_row : ScheduleRow → Error → ScheduleRow
  invalid_row row error = record row {
    enabled = false;
    last_dispatch_status = some "invalid";
    last_dispatch_error = some error;
  }

  abbrev pub aware_option : Option Time → Option DateTime
  aware_option none = none
  aware_option (some at) = some (aware at)

  -- The row with its next run; one that has no next run is disabled.
  abbrev pub moved : ScheduleRow → Option Time → ScheduleRow
  moved row next = record row {
    timing = record row.timing { next_run_at = aware_option next };
    enabled = if is_none next then false else row.enabled;
  }

  abbrev pub with_status : ScheduleRow → String → ScheduleRow
  with_status row status = record row { last_dispatch_status = some status }

  abbrev pub add_task : Time → ℕ → ScheduleRow → List Task → Option Task → Dispatched
  unfolding build_scheduled_task
  add_task occurrence fresh row tasks (some active) = record {
    row = with_status row "overlap_skipped";
    tasks = tasks;
    new_id = none;
  }
  add_task occurrence fresh row tasks none = record {
    row = record (with_status row "queued") {
      last_run_at = some occurrence;
      last_task_id = some fresh;
    };
    tasks = tasks ++ build_scheduled_task row occurrence fresh none ∷ [];
    new_id = some fresh;
  }

  abbrev pub dispatch_at : Time → Time → ℕ → ScheduleRow → List Task → Dispatched
  unfolding add_task active_schedule_task
  dispatch_at now occurrence fresh row tasks =
      if ltb (seconds row.misfire_grace_seconds) (now - occurrence)
      then record { row = with_status row "missed"; tasks = tasks; new_id = none }
      else add_task occurrence fresh row tasks (active_schedule_task row.id tasks)

  abbrev pub dispatch_next :
      Time → ℕ → ScheduleRow → List Task → Time → Result (Option Time) → Dispatched
  unfolding dispatch_at
  dispatch_next now fresh row tasks occurrence (err error) = record {
    row = invalid_row row error;
    tasks = tasks;
    new_id = none;
  }
  dispatch_next now fresh row tasks occurrence (ok next) =
      dispatch_at now occurrence fresh (moved row next) tasks

  abbrev pub dispatch_found :
      Zones → Time → ℕ → ScheduleRow → List Task → Result (Option Time) → Option Dispatched
  unfolding next_run_after_occurrence
  dispatch_found zones now fresh row tasks (err error) =
      some (record { row = invalid_row row error; tasks = tasks; new_id = none })
  dispatch_found zones now fresh row tasks (ok none) = none
  dispatch_found zones now fresh row tasks (ok (some occurrence)) = some (
      dispatch_next now fresh row tasks occurrence
        (next_run_after_occurrence zones row.timing (aware now)))

  -- A round of the loop over the due schedules; `none` is a search that has not ended.
  unfoldable pub dispatch_schedule : Zones → Time → ℕ → ScheduleRow → List Task → Option Dispatched
  unfolding dispatch_found dispatch_next latest_due_occurrence
  dispatch_schedule zones now fresh row tasks =
      dispatch_found zones now fresh (touched row now) tasks
        (latest_due_occurrence zones row.timing now)

  abbrev pub append_id : Option ℕ → List ℕ → List ℕ
  append_id none ids = ids
  append_id (some id) ids = id ∷ ids

  pub record Tick : Type 0 where
    pub rows : List ScheduleRow
    pub all_tasks : List Task
    pub task_ids : List ℕ

  abbrev pub then_tick : Option Dispatched → (Dispatched → Option Tick) → Option Tick
  then_tick none next = none
  then_tick (some done) next = next done

  abbrev pub first_of : Dispatched → Option Tick → Option Tick
  first_of done none = none
  first_of done (some tick) = some (record {
    rows = done.row ∷ tick.rows;
    all_tasks = tick.all_tasks;
    task_ids = append_id done.new_id tick.task_ids;
  })

  -- The loop over the schedules, in their order; `fresh` is the id of the next new task.
  unfoldable pub dispatch_rows : Zones → Time → ℕ → List ScheduleRow → List Task → Option Tick
  unfolding dispatch_schedule
  dispatch_rows zones now fresh [] tasks =
      some (record { rows = []; all_tasks = tasks; task_ids = [] })
  dispatch_rows zones now fresh (row ∷ rows) tasks =
      then_tick (dispatch_schedule zones now fresh row tasks)
        λ done. first_of done (dispatch_rows zones now (suc fresh) rows done.tasks)

  unfoldable pub dispatch_due_schedules :
      Zones → Time → ℕ → (ScheduleRow → Bool) → List ScheduleRow → List Task → Option Tick
  unfolding dispatch_rows
  dispatch_due_schedules zones now fresh is_locked rows tasks =
      dispatch_rows zones now fresh (take 100 (select_due now is_locked rows)) tasks

  abbrev pub run_or_return :
      Time → ℕ → String → ScheduleRow → List Task → Option Task → ScheduleRow × List Task × Task
  unfolding build_scheduled_task
  run_or_return now fresh random_key row tasks (some existing) = (row, tasks, existing)
  run_or_return now fresh random_key row tasks none =
      let task = build_scheduled_task row now fresh (some random_key) in
      (
        record row {
          last_task_id = some fresh;
          last_run_at = some now;
          last_dispatch_at = some now;
          last_dispatch_status = some "queued";
          last_dispatch_error = none;
        },
        tasks ++ task ∷ [],
        task,
      )

  -- `row` is the schedule of that id and user, if there is one; the scheduler's `enqueue` is left out.
  unfoldable pub run_task_schedule_now :
      Time → ℕ → String → Option ScheduleRow → List Task → Result (ScheduleRow × List Task × Task)
  unfolding run_or_return active_schedule_task
  run_task_schedule_now now fresh random_key none tasks = err (http 404 "Task schedule not found")
  run_task_schedule_now now fresh random_key (some row) tasks =
      ok (run_or_return now fresh random_key row tasks (active_schedule_task row.id tasks))

-- `next_run_at is None or next_run_at <= now`
abbrev pub is_stale : Time → Option DateTime → Bool
is_stale now none = true
is_stale now (some at) = leb at.instant now

abbrev pub refused_update : Error → Error
refused_update (value_error message) = http 409 message
refused_update other = other

abbrev pub enable_with : Bool → ScheduleRow → Result Time → Result ScheduleRow
enable_with enabled row (err error) = err (refused_update error)
enable_with enabled row (ok next) = ok (record row {
  timing = record row.timing { next_run_at = some (aware next) };
  enabled = enabled;
  last_dispatch_error = none;
})

unfoldable pub update_task_schedule : Zones → Time → Bool → Option ScheduleRow → Result ScheduleRow
unfolding initial_next_run
update_task_schedule zones now enabled none = err (http 404 "Task schedule not found")
update_task_schedule zones now enabled (some row) =
    let renewed = enable_with enabled row (
      initial_next_run zones row.timing.kind row.timing.timezone (aware now) row.run_at
        row.timing.interval_seconds row.timing.daily_time) in
    if enabled && is_stale now row.timing.next_run_at
    then renewed
    else ok (record row { enabled = enabled; last_dispatch_error = none })
