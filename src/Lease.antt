-- ===== src/Lease.antt =====
-- backend/app/services/task_lease.py: execution fencing. A worker holds a lease, the task's id and a
-- random token; the row's `run_token` decides whether the worker may still write.
pub mod Owner
use agent_demo.Prelude.{
  ℕ, String, Bool, true, false, not, ◌&&◌, ◌||◌, Option, none, some, is_none, if◌then◌else◌,
}
use agent_demo.Outcome.{Error, attribute_error, lease_lost, Result, ok, err}
use agent_demo.Task.{Task, Time, running, same_status, passed, holds}

pub record TaskLease : Type 0 where
  pub task_id : ℕ
  pub token : ℕ

abbrev pub replay_blocked_error : String
replay_blocked_error =
    "Execution stopped after a tool dispatch or saved answer. Automatic retry is disabled; review the conversation and tool history before starting a new task."

abbrev pub no_live_lease : Error
no_live_lease = lease_lost "Background task no longer owns a live execution lease"

-- The tests of `lock_task_lease` after `task is None`: the row is refused.
unfoldable pub fenced_off : Bool → TaskLease → Time → Task → Bool
fenced_off live lease now task =
    not (same_status task.status running)
    || not (holds task.run_token lease.token)
    || live && (is_none task.lease_expires_at || passed task.lease_expires_at now)
    || live && passed task.deadline_at now

-- `row` is what the locking read of the lease's task returns.
lock_row : Bool → TaskLease → Time → Option Task → Result (Option Task)
unfolding fenced_off
lock_row live lease now none = err no_live_lease
lock_row live lease now (some task) =
    if fenced_off live lease now task then err no_live_lease else ok (some task)

unfoldable pub lock_task_lease : Bool → Option TaskLease → Time → Option Task → Result (Option Task)
unfolding lock_row
lock_task_lease live none now row = ok none
lock_task_lease live (some lease) now row = lock_row live lease now row

-- The attribute accesses on what `lock_task_lease` returned.
abbrev pub require_task : Option Task → Result Task
require_task none = err attribute_error
require_task (some task) = ok task

-- `x or y` on an optional value
abbrev keep_first {ℓ} : {A : Type ℓ} → Option A → A → Option A
keep_first none a = some a
keep_first (some b) a = some b

-- The reasons that callers pass are not empty.
unfoldable pub block_replay : Time → String → Task → Task
block_replay now reason task = record task {
  replay_blocked_at = keep_first task.replay_blocked_at now;
  replay_blocked_reason = keep_first task.replay_blocked_reason reason;
}
