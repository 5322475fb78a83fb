-- ===== src/Lifecycle/Effects.antt =====
-- The row after each worker operation that returned.
use agent_demo.Prelude.{
  Bool-cases, inl, inr, ◌≡◌, ℕ, Bool, true, false, Option, some, none, List, String, arith, ◌⊎◌,
}
use agent_demo.Json.{Json, Fields}
use agent_demo.Outcome.{ok}
use agent_demo.Task.{Task, Time, TaskResult}
use agent_demo.Lease.{TaskLease, block_replay}
use agent_demo.Lease.Owner.{Owns, lock-cases}
use agent_demo.Runner.{
  Config, TaskRunOutcome, settle, finish_or_retry, complete, trace_or, succeed, extend_lease,
  heartbeat,
}
use agent_demo.Runner.Events.{note_event, record_event}
use agent_demo.Dispatch.{dispatch_reason, mark_dispatch}
use agent_demo.ToolExecutor.TaskEvents.{
  EventInfo, may_write_event, write_event, record_mcp_task_event,
}
use agent_demo.SaveMessage.{ChatMessage, save_message}

pub event_cases :
    (lease : Option TaskLease) (now : Time) (info : EventInfo) (task t : Task)
    → record_mcp_task_event lease now info (some task) ≡ some t
    → (t ≡ task) ⊎ (t ≡ write_event info task)
unfolding record_mcp_task_event
event_cases lease now info task t h = elim (Bool-cases (may_write_event lease now task)) [
  | inl e ↦ inr (ground arith)
  | inr e ↦ inl (ground arith)
]

module _ (lease : TaskLease) (now at : Time) (task : Task) {t : Task} where
  pub record_event_effect :
      (container : Json → String) (event_type : String) (event : Fields)
      → record_event container (some lease) now at event_type event (some task) ≡ ok t
      → Owns lease task × (t ≡ note_event container at event_type event task)
  unfolding record_event
  record_event_effect container event_type event h = ground (arith, lock-cases true lease now task)

  pub heartbeat_effect :
      (config : Config)
      → heartbeat config (some lease) now at (some task) ≡ ok t
      → Owns lease task × (extend_lease config at task task.deadline_at ≡ ok t)
  unfolding heartbeat
  heartbeat_effect config h = ground (arith, lock-cases true lease now task)

  pub mark_dispatch_effect :
      (task_id : ℕ) (tool_name : String)
      → mark_dispatch (some task_id) (some lease) now at tool_name (some task) none ≡ ok (some t)
      → Owns lease task × (t ≡ block_replay at (dispatch_reason tool_name) task)
  unfolding mark_dispatch
  mark_dispatch_effect task_id tool_name h = ground (arith, lock-cases true lease now task)

  pub save_message_effect :
      (draft : ChatMessage) (before after : List ChatMessage)
      → save_message (some lease) now at draft (some task) before
        ≡ ok (record { messages = after; task_row = some t })
      → Owns lease task × ((t ≡ task) ⊎ (t ≡ block_replay at "Assistant answer saved" task))
  unfolding save_message
  save_message_effect draft before after h = ground (arith, lock-cases true lease now task)

  pub succeed_effect :
      (trace_id : Option String) (answer : TaskResult)
      → succeed (some lease) now at (some task) trace_id answer ≡ ok t
      → Owns lease task × (t ≡ complete at task (trace_or trace_id task.trace_id) answer)
  unfolding succeed
  succeed_effect trace_id answer h = ground (arith, lock-cases true lease now task)

  pub finish_or_retry_effect :
      (jitter : ℕ) (error : String) (retryable : Bool) (outcome : TaskRunOutcome)
      → finish_or_retry (some lease) now at jitter (some task) error retryable ≡ ok (outcome, t)
      → Owns lease task × (t ≡ (settle now at jitter task error retryable).1)
  unfolding finish_or_retry
  finish_or_retry_effect jitter error retryable outcome h =
      ground (arith, lock-cases false lease now task)
