-- ===== src/TaskRoutes.antt =====
-- backend/app/api/routes/tasks.py: the requests of a task's owner that change its row. `row` is what
-- the locking `get_owned_task` returns, `now` what `datetime.now(UTC)` returns.
pub mod Ownership
use agent_demo.Prelude.{
  ℕ, String, Bool, true, false, not, ◌&&◌, Option, none, some, is_some, is_none, if◌then◌else◌,
  List, [], ◌∷◌, concat, or_else,
}
use agent_demo.Outcome.{Error, http, Result, ok, err, ◌>>=◌, ◌>>◌, guard}
use agent_demo.Task.{
  Status, running, cancelled, status_text, is_terminal, same_status,
  is_valid_task_status_transition, Task, TaskResult, Metadata, Time, is_agent,
}

abbrev not_found : Error
not_found = http 404 "Task not found"

unfoldable pub validate_task_transition : Task → Status → Result (Unit {0})
validate_task_transition task next = guard (is_valid_task_status_transition task.status next) (
    http 409 (
      concat (
        "Invalid task status transition from "
        ∷ status_text task.status
        ∷ " to "
        ∷ status_text next
        ∷ [])))

unfoldable pub apply_task_status_timestamps : Time → Status → Task → Task
apply_task_status_timestamps now next task = record task {
  started_at =
      if same_status next running && is_none task.started_at then some now else task.started_at;
  finished_at = if is_terminal next && is_none task.finished_at then some now else task.finished_at;
}

-- The fields that `cancel_task` sets once the transition is allowed.
cancelled_row : Time → Task → Task
unfolding apply_task_status_timestamps
cancelled_row now task =
    let stamped = apply_task_status_timestamps now cancelled task in
    record stamped {
      status = cancelled;
      run_token = none;
      lease_expires_at = none;
      next_attempt_at = none;
      error =
          if is_some task.replay_blocked_at
          then some
              "Cancelled after work started. Review tool history for operations already dispatched."
          else task.error;
    }

unfoldable pub cancel_task : Time → Option Task → Result Task
unfolding cancelled_row validate_task_transition
cancel_task now none = err not_found
cancel_task now (some task) = do
  validate_task_transition task cancelled
  ok (cancelled_row now task)

pub record TaskUpdate : Type 0 where
  pub new_status : Option Status
  pub new_progress : Option ℕ
  pub new_error : Option String
  pub new_result : Option TaskResult
  pub new_trace_id : Option String
  pub new_metadata : Option Metadata

-- `if payload.x is not None: task.x = payload.x`, for a column that may be null
abbrev updated {ℓ} : {A : Type ℓ} → Option A → Option A → Option A
updated none old = old
updated (some a) old = some a

set_status : Time → Task → Option Status → Result Task
unfolding validate_task_transition apply_task_status_timestamps
set_status now task none = ok task
set_status now task (some next) = do
  validate_task_transition task next
  let stamped = apply_task_status_timestamps now next task
  ok (record stamped { status = next })

set_fields : TaskUpdate → Task → Task
set_fields payload task = record task {
  progress = or_else payload.new_progress task.progress;
  error = updated payload.new_error task.error;
  task_result = updated payload.new_result task.task_result;
  trace_id = updated payload.new_trace_id task.trace_id;
  metadata = or_else payload.new_metadata task.metadata;
}

unfoldable pub update_task : Time → TaskUpdate → Option Task → Result Task
unfolding set_status set_fields
update_task now payload none = err not_found
update_task now payload (some task) =
    if is_agent task.kind
    then err (http 409 "Agent task state is managed by the worker; use cancel to stop it")
    else do stamped ← set_status now task payload.new_status; ok (set_fields payload stamped)
