-- ===== src/Examples/Ticks.antt =====
-- A schedule of every five minutes that is due, is dispatched, and is then run by hand.
use agent_demo.Prelude.{◌≡◌, ◌≤◌, refl, arith, ℕ, String, true, none, some, [], ◌∷◌}
use agent_demo.Outcome.{ok}
use agent_demo.Task.{Task, Time, seconds}
use agent_demo.ScheduleDispatch.{
  ScheduleRow, Dispatched, dispatch_schedule, latest_due_occurrence, run_task_schedule_now,
  build_scheduled_task,
}
use agent_demo.ScheduleDispatch.Occurrence.{latest_due_occurrence_found}
use agent_demo.ScheduleDispatch.OneActive.{
  unchanged, then_change, dispatched, run_now, Changes-AtMostOne,
}
use agent_demo.ScheduleDispatch.ActiveTasks.{AtMostOne}
use agent_demo.Examples.Calendar.{zones, schedule}

abbrev row : ScheduleRow
row = record {
  id = 5;
  user_id = 4;
  conversation_id = none;
  name = "news";
  prompt = "Collect the news";
  timing = schedule;
  run_at = none;
  max_attempts = 3;
  enabled = true;
  misfire_grace_seconds = 300;
  last_run_at = none;
  last_task_id = none;
  last_dispatch_status = none;
  last_dispatch_at = none;
  last_dispatch_error = none;
}

abbrev iso : Time → String
iso at = "2026-01-01T00:00:00+00:00"

abbrev id_text : ℕ → String
id_text id = "5"

latest_due_occurrence_found_example :
    (at : Time) × (some (seconds 700) ≡ some at) × (seconds 100 ≤ at) × (at ≤ seconds 800)
unfolding latest_due_occurrence
latest_due_occurrence_found_example =
    latest_due_occurrence_found zones schedule (record { instant = seconds 100; is_aware = true })
      (seconds 800) (some (seconds 700)) refl (omega arith) refl

abbrev new_task : Task
new_task = build_scheduled_task id_text iso row (seconds 700) 31 none

abbrev done : Dispatched id_text iso
done = record {
  row = record row {
    timing = record schedule {
      next_run_at = some (record { instant = seconds 1000; is_aware = true });
    };
    last_run_at = some (seconds 700);
    last_task_id = some 31;
    last_dispatch_at = some (seconds 800);
    last_dispatch_status = some "queued";
  };
  tasks = new_task ∷ [];
  new_id = some 31;
}

dispatch_gives_done : dispatch_schedule id_text iso zones (seconds 800) 31 row [] ≡ some done
unfolding dispatch_schedule
dispatch_gives_done = refl

run_returns_it :
    run_task_schedule_now id_text iso (seconds 900) 32 "f00d" (some row) (new_task ∷ [])
    ≡ ok (row, new_task ∷ [], new_task)
unfolding run_task_schedule_now
run_returns_it = refl

none_yet : AtMostOne []
none_yet id = omega arith

Changes-AtMostOne_example : AtMostOne (new_task ∷ [])
Changes-AtMostOne_example = Changes-AtMostOne id_text iso zones [] (new_task ∷ []) none_yet (
    then_change (then_change unchanged (dispatched (seconds 800) 31 row done dispatch_gives_done))
      (run_now (seconds 900) 32 "f00d" row row (new_task ∷ []) new_task run_returns_it))
