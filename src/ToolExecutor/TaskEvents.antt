-- ===== src/ToolExecutor/TaskEvents.antt =====
-- backend/app/services/tool_executor.py, `_record_mcp_task_event`: the events of MCP calls on the
-- task row.
use agent_demo.Prelude.{
  ℕ, String, Bool, true, not, ◌&&◌, ◌||◌, Option, none, some, List, [], ◌∷◌, ◌++◌, ◌==◌, min, max,
  is_none, if◌then◌else◌, take_last,
}
use agent_demo.Task.{Task, Time, mcp_event, running, is_agent, same_status, holds, passed}
use agent_demo.Lease.{TaskLease}
use agent_demo.Json.{Json}
use agent_demo.Runner.{max_task_events}

pub record EventInfo : Type 0 where
  pub event_type : String
  pub tool_name : String
  pub payload : List (String × Json)
  pub progress : Option ℕ

-- The tests that keep a worker without the row's live lease from writing.
abbrev foreign_lease : Option TaskLease → Task → Bool
foreign_lease none task = true
foreign_lease (some lease) task =
    not (lease.task_id == task.id)
    || not (holds task.run_token lease.token)
    || not (same_status task.status running)

unfoldable pub may_write_event : Option TaskLease → Time → Task → Bool
may_write_event lease now task =
    not (is_agent task.kind)
    || not (foreign_lease lease task)
      && not (is_none task.lease_expires_at)
      && not (passed task.lease_expires_at now)

abbrev advance : Task → Option ℕ → ℕ
advance task none = task.progress
advance task (some progress) =
    max task.progress (if is_agent task.kind then min progress 95 else progress)

unfoldable pub write_event : EventInfo → Task → Task
write_event info task = record task {
  metadata = record (task.metadata) {
    events =
        take_last max_task_events
          (task.metadata.events ++ mcp_event info.event_type info.tool_name info.payload ∷ []);
  };
  progress = advance task info.progress;
}

-- The row of `task_id` after the call; `none` stays `none`.
unfoldable pub record_mcp_task_event :
    Option TaskLease → Time → EventInfo → Option Task → Option Task
unfolding write_event
record_mcp_task_event lease now info none = none
record_mcp_task_event lease now info (some task) =
    some (if may_write_event lease now task then write_event info task else task)
