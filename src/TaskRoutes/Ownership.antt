-- ===== src/TaskRoutes/Ownership.antt =====
-- What the owner's requests may do to a row.
use agent_demo.Prelude.{◌≡◌, ◌≢◌, true, some, arith, ◌||◌}
use agent_demo.Outcome.{ok, is_ok}
use agent_demo.Task.{
  Task, Time, agent, queued, running, cancelled, same_status, is_valid_task_status_transition,
}
use agent_demo.TaskRoutes.{TaskUpdate, cancel_task, update_task}

-- Cancelling succeeds exactly for a task that is queued, running or cancelled already.
pub cancel_task-ok_iff :
    (now : Time) (task : Task)
    → is_ok (cancel_task now (some task)) ≡ (
        same_status task.status queued
        || same_status task.status running
        || same_status task.status cancelled)
unfolding cancel_task is_valid_task_status_transition
cancel_task-ok_iff now task = ground arith

-- An update changes only tasks that no worker runs, and moves the status as the table allows.
pub update_task_allowed :
    (now : Time) (payload : TaskUpdate) (task after : Task)
    → update_task now payload (some task) ≡ ok after
    → (task.kind ≢ agent)
      × (is_valid_task_status_transition task.status after.status ≡ true)
      × (after.run_token ≡ task.run_token)
      × (after.attempt_count ≡ task.attempt_count)
unfolding update_task is_valid_task_status_transition
update_task_allowed now payload task after h = ground arith
