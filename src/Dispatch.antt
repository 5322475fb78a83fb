-- ===== src/Dispatch.antt =====
-- backend/app/services/tool_executor.py: the durable mark against replay that an attempt leaves on
-- its task row before it dispatches a tool.
use agent_demo.Prelude.{
  ℕ, String, true, Option, none, some, [], ◌∷◌, ◌==◌, if◌then◌else◌, cut, concat,
}
use agent_demo.Outcome.{lease_lost, Result, ok, err, ◌>>=◌}
use agent_demo.Task.{Task, Time, is_agent}
use agent_demo.Lease.{TaskLease, lock_task_lease, block_replay}

-- `f"Tool dispatched: {name}"[:200]`
abbrev pub dispatch_reason : String → String
dispatch_reason tool_name = cut 200 (concat ("Tool dispatched: " ∷ tool_name ∷ []))

-- The row after the gate of `ToolExecutor.run`; `linked` is what `session.get(Task, task_id)`
-- returns where no lease is held. `none`: no row is written.
mark_locked : ℕ → Time → String → Option Task → Option Task → Result (Option Task)
mark_locked task_id at tool_name (some task) linked =
    if task.id == task_id
    then ok (some (block_replay at (dispatch_reason tool_name) task))
    else err (lease_lost "Tool task identity does not match execution lease")
mark_locked task_id at tool_name none none = ok none
mark_locked task_id at tool_name none (some linked) =
    if is_agent linked.kind
    then err (lease_lost "Agent tool execution requires a worker lease")
    else ok none

-- `task_id` is none for a call outside of any task.
unfoldable pub mark_dispatch :
    Option ℕ
    → Option TaskLease
    → Time
    → Time
    → String
    → Option Task
    → Option Task
    → Result (Option Task)
unfolding mark_locked
mark_dispatch none lease now at tool_name row linked = ok none
mark_dispatch (some task_id) lease now at tool_name row linked = do
  held ← lock_task_lease true lease now row
  mark_locked task_id at tool_name held linked
