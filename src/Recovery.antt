-- ===== src/Recovery.antt =====
-- backend/app/services/task_scheduler.py: recovery of tasks whose worker is gone. `selected` is what
-- the locking query returns, at most 100 rows in its order, and `now` the time that it was given.
pub mod Sweep
use agent_demo.Prelude.{
  ℕ, ◌+◌, String, Bool, true, false, not, ◌&&◌, ◌||◌, Option, none, some, List, [], ◌∷◌, ltb, ◌==◌,
  if◌then◌else◌, is_some, is_none,
}
use agent_demo.Task.{Task, Time, queued, running, stale, same_status, is_agent, passed}
use agent_demo.Lease.{replay_blocked_error}

abbrev stale_task_error : String
stale_task_error = "Task lease expired after the final permitted attempt"

abbrev recovered_task_error : String
recovered_task_error = "Task lease expired before external work; execution was re-queued"

-- The `where` of the query.
unfoldable pub is_abandoned : Time → Task → Bool
is_abandoned now task =
    same_status task.status running
    && is_agent task.kind
    && (is_none task.lease_expires_at || passed task.lease_expires_at now)

-- `getattr(task, …, 1) or 1`
abbrev at_least_one : ℕ → ℕ
at_least_one n = if n == 0 then 1 else n

-- `attempt_count < max_attempts and not replay blocked and not deadline_expired`
unfoldable pub may_run_again : Time → Task → Bool
may_run_again now task =
    ltb (at_least_one task.attempt_count) (at_least_one task.max_attempts)
    && not (is_some task.replay_blocked_at)
    && not (passed task.deadline_at now)

stale_error : Time → Task → String
stale_error now task =
    if is_some task.replay_blocked_at
    then replay_blocked_error
    else if passed task.deadline_at now
    then "Task deadline expired during recovery"
    else stale_task_error

-- The body of the loop for one row whose lease has expired.
unfoldable pub recover : Time → Task → Task
unfolding may_run_again stale_error
recover now task =
    if may_run_again now task
    then record task {
      status = queued;
      error = some recovered_task_error;
      finished_at = none;
      next_attempt_at = some now;
      lease_expires_at = none;
      run_token = none;
    }
    else record task {
      status = stale;
      finished_at = some now;
      error = some (stale_error now task);
      next_attempt_at = none;
      lease_expires_at = none;
      run_token = none;
    }

-- `lease_expires_at is not None and lease_expires_at > now_utc`
abbrev still_leased : Option Time → Time → Bool
still_leased none now = false
still_leased (some at) now = ltb now at

-- The loop: the rows as they are committed, and how many were recovered.
unfoldable pub recover_stale_running_tasks : Time → List Task → List Task × ℕ
recover_stale_running_tasks now [] = ([], 0)
recover_stale_running_tasks now (task ∷ tasks) =
    let (rows, recovered) = recover_stale_running_tasks now tasks in
    if still_leased task.lease_expires_at now
    then (task ∷ rows, recovered)
    else (recover now task ∷ rows, recovered + 1)
