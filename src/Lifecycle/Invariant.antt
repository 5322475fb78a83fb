-- ===== src/Lifecycle/Invariant.antt =====
-- What holds of a task's row between any two transactions.
use agent_demo.Prelude.{
  leb, ◌&&◌, or_else, not, ◌||◌, ℕ, ◌+◌, ◌<◌, ◌≤◌, ◌≡◌, inl, inr, Bool, true, false, Option, some,
  none, is_some, List, [], ◌∷◌, ◌++◌, arith, length, take_last, length-take_last,
}
use agent_demo.Json.{Json, Fields}
use agent_demo.Outcome.{ok}
use agent_demo.Task.{
  mcp_event, Task, Time, TaskResult, TaskEvent, recorded, passed, running, same_status, is_terminal,
  is_agent,
}
use agent_demo.Lease.{TaskLease, block_replay}
use agent_demo.Lease.Owner.{Owns}
use agent_demo.Dispatch.{dispatch_reason}
use agent_demo.Prelude.{String}
use agent_demo.Runner.{
  trace_or, Config, claim_error, start_attempt, retry_event, claim, settle, finish_failed, requeue,
  complete, extend_lease, max_task_events,
}
use agent_demo.Runner.Events.{note_event, pick, compact_keys}
use agent_demo.Recovery.{recover}
use agent_demo.TaskRoutes.{cancel_task, TaskUpdate, update_task}
use agent_demo.ToolExecutor.TaskEvents.{EventInfo, write_event}
use agent_demo.Lifecycle.{
  World, Step, Reach, claimed, noted, beat, dispatched, answered, settled, completed, reported,
  recovered, cancelled, edited, here, next,
}
use agent_demo.Lifecycle.Effects.{
  event_cases, record_event_effect, heartbeat_effect, mark_dispatch_effect, save_message_effect,
  succeed_effect, finish_or_retry_effect,
}

abbrev pub Within : Option Time → Option Time → Type 0
Within (some lease) (some deadline) = lease ≤ deadline
Within (some lease) none = ⊥
Within none deadline = Unit

pub record IsSound (task : Task) : Type 0 where
  -- A running agent task has an owner, a lease and a deadline; any other task has neither owner nor
  -- lease.
  pub owned : is_some task.run_token ≡ (is_agent task.kind && same_status task.status running)
  pub leased :
      is_some task.lease_expires_at ≡ (is_agent task.kind && same_status task.status running)
  pub within : Within task.lease_expires_at task.deadline_at
  pub budget : task.attempt_count ≤ task.max_attempts
  pub progressed : task.progress ≤ 100
  pub recent : (not (is_agent task.kind) || leb (length task.metadata.events) 100) ≡ true
  pub ended : (not (is_terminal task.status) || is_some task.finished_at) ≡ true

bounded_events :
    (events : List TaskEvent) (e : TaskEvent)
    → leb (length (take_last max_task_events (events ++ e ∷ []))) 100 ≡ true
bounded_events events e = grind (arith, length-take_last 100 (events ++ e ∷ []))

pub claim_error-none :
    (now : Time) (task : Task)
    → claim_error now task ≡ none
    → (task.attempt_count < task.max_attempts)
      × (passed task.deadline_at now ≡ false)
      × (task.replay_blocked_at ≡ none)
unfolding claim_error
claim_error-none now task h = ground arith

claim-IsSound :
    (config : Config) (now token fresh : ℕ) (task : Task)
    → IsSound task
    → IsSound (claim config now token fresh task).1
unfolding claim finish_failed start_attempt
claim-IsSound config now token fresh task h = ground (arith, claim_error-none now task)

note_event-IsSound :
    (container : Json → String) (at : Time) (event_type : String) (event : Fields) (task : Task)
    → IsSound task
    → IsSound (note_event container at event_type event task)
unfolding note_event
note_event-IsSound container at event_type event task h = ground (
  arith,
  bounded_events task.metadata.events
      (recorded event_type at task.attempt_count (pick compact_keys event)),
)

extend_lease-IsSound :
    (config : Config) (at : Time) (task t : Task)
    → task.status ≡ running
    → is_some task.run_token ≡ true
    → extend_lease config at task task.deadline_at ≡ ok t
    → IsSound task
    → IsSound t
unfolding extend_lease
extend_lease-IsSound config at task t live own e h = ground arith

block_replay-IsSound :
    (at : Time) (reason : String) (task : Task)
    → IsSound task
    → IsSound (block_replay at reason task)
unfolding block_replay
block_replay-IsSound at reason task h = ground arith

complete-IsSound :
    (at : Time) (task : Task) (trace_id : Option String) (answer : TaskResult)
    → IsSound task
    → IsSound (complete at task trace_id answer)
unfolding complete
complete-IsSound at task trace_id answer h = ground arith

settle-IsSound :
    (now ended jitter : ℕ) (task : Task) (error : String) (retryable : Bool)
    → IsSound task
    → IsSound (settle now ended jitter task error retryable).1
unfolding settle finish_failed requeue
settle-IsSound now ended jitter task error retryable h =
    ground (arith, bounded_events task.metadata.events (retry_event now (now + jitter) task error))

recover-IsSound : (now : Time) (task : Task) → IsSound task → IsSound (recover now task)
unfolding recover
recover-IsSound now task h = ground arith

cancel_task-IsSound :
    (now : Time) (task t : Task) → cancel_task now (some task) ≡ ok t → IsSound task → IsSound t
unfolding cancel_task
cancel_task-IsSound now task t e h = ground arith

update_task-IsSound :
    (now : Time) (payload : TaskUpdate) (task t : Task)
    → or_else payload.new_progress 0 ≤ 100
    → update_task now payload (some task) ≡ ok t
    → IsSound task
    → IsSound t
unfolding update_task
update_task-IsSound now payload task t b e h = ground arith

write_event-IsSound :
    (info : EventInfo) (task : Task)
    → or_else info.progress 0 ≤ 100
    → IsSound task
    → IsSound (write_event info task)
unfolding write_event
write_event-IsSound info task b h = ground (
  arith,
  bounded_events task.metadata.events (mcp_event info.event_type info.tool_name info.payload),
)

held : (lease : TaskLease) (task : Task) → Owns lease task → is_some task.run_token ≡ true
held lease task o = ground (arith, o.has_token)

-- Every transaction keeps the row sound.
pub Step-IsSound :
    (config : Config) (container : Json → String) (w u : World)
    → Step config container w u
    → IsSound w.row
    → IsSound u.row
Step-IsSound config container w u (claimed now token fresh new) h =
    claim-IsSound config now token fresh w.row h
Step-IsSound config container w u (noted lease now at event_type event t e) h =
    rw (record_event_effect lease now at w.row container event_type event e).1
      (note_event-IsSound container at event_type event w.row h)
Step-IsSound config container w u (beat lease now at t e) h =
    let (o, x) = heartbeat_effect lease now at w.row config e in
    extend_lease-IsSound config at w.row t o.is_running (held lease w.row o) x h
Step-IsSound config container w u (dispatched task_id lease now at tool_name t e) h =
    rw (mark_dispatch_effect lease now at w.row task_id tool_name e).1
      (block_replay-IsSound at (dispatch_reason tool_name) w.row h)
Step-IsSound config container w u (answered lease now at draft before after t e) h =
    elim (save_message_effect lease now at w.row draft before after e).1 [
      | inl same ↦ rw same h
      | inr marked ↦ rw marked (block_replay-IsSound at "Assistant answer saved" w.row h)
    ]
Step-IsSound config container w u (settled lease now ended jitter error retryable outcome t e) h =
    rw (finish_or_retry_effect lease now ended w.row jitter error retryable outcome e).1
      (settle-IsSound now ended jitter w.row error retryable h)
Step-IsSound config container w u (completed lease now ended trace_id answer t e) h =
    rw (succeed_effect lease now ended w.row trace_id answer e).1
      (complete-IsSound ended w.row (trace_or trace_id w.row.trace_id) answer h)
Step-IsSound config container w u (reported lease now info t b e) h =
    elim (event_cases lease now info w.row t e) [
      | inl same ↦ rw same h
      | inr written ↦ rw written (write_event-IsSound info w.row b h)
    ]
Step-IsSound config container w u (recovered now _) h = recover-IsSound now w.row h
Step-IsSound config container w u (cancelled now t e) h = cancel_task-IsSound now w.row t e h
Step-IsSound config container w u (edited now payload t b e) h =
    update_task-IsSound now payload w.row t b e h

-- From a sound row, every sequence of transactions, by workers, recoveries and owners, leads to sound
-- rows.
pub Reach-IsSound :
    (config : Config) (container : Json → String) (w u : World)
    → Reach config container w u
    → IsSound w.row
    → IsSound u.row
Reach-IsSound config container w u here h = h
Reach-IsSound config container w u (next {u = v} r s) h =
    Step-IsSound config container v u s (Reach-IsSound config container w v r h)
