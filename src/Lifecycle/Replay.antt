-- ===== src/Lifecycle/Replay.antt =====
-- The attempts of a task, and the mark against replay.
use agent_demo.Prelude.{
  ℕ, ◌+◌, ◌≤◌, ◌≡◌, inl, inr, String, Bool, true, Option, some, is_some, arith,
}
use agent_demo.Json.{Json, Fields}
use agent_demo.Outcome.{ok}
use agent_demo.Task.{Task, Time, TaskResult}
use agent_demo.Lease.{block_replay}
use agent_demo.Runner.{
  Config, Claim, started, declined, claim, start_attempt, settle, finish_failed, requeue, complete,
  extend_lease, trace_or,
}
use agent_demo.Runner.Events.{note_event}
use agent_demo.Recovery.{recover}
use agent_demo.TaskRoutes.{cancel_task, TaskUpdate, update_task}
use agent_demo.Dispatch.{dispatch_reason}
use agent_demo.ToolExecutor.TaskEvents.{EventInfo, write_event}
use agent_demo.Lifecycle.{
  World, Step, Reach, claimed, noted, beat, dispatched, answered, settled, completed, reported,
  recovered, cancelled, edited, here, next,
}
use agent_demo.Lifecycle.Effects.{
  event_cases, record_event_effect, heartbeat_effect, mark_dispatch_effect, save_message_effect,
  succeed_effect, finish_or_retry_effect,
}
use agent_demo.Lifecycle.Invariant.{IsSound, claim_error-none, Reach-IsSound}

abbrev pub is_started : Claim → ℕ
is_started (declined outcome) = 0
is_started (started job) = 1

-- How many attempts a step starts: 1 for a claim that is granted.
abbrev pub starts_of :
    {config : Config} {container : Json → String} {w u : World} → Step config container w u → ℕ
starts_of {config} {w = w} (claimed now token fresh new) =
    is_started (claim config now token fresh w.row).0
starts_of (noted lease now at event_type event t e) = 0
starts_of (beat lease now at t e) = 0
starts_of (dispatched task_id lease now at tool_name t e) = 0
starts_of (answered lease now at draft before after t e) = 0
starts_of (settled lease now ended jitter error retryable outcome t e) = 0
starts_of (completed lease now ended trace_id answer t e) = 0
starts_of (reported lease now info t b e) = 0
starts_of (recovered now e) = 0
starts_of (cancelled now t e) = 0
starts_of (edited now payload t b e) = 0

abbrev pub starts :
    {config : Config} {container : Json → String} {w u : World} → Reach config container w u → ℕ
starts here = 0
starts (next r s) = starts r + starts_of s

-- What a step does to the fields that bound the attempts: `n` attempts start, and none does where
-- replay is blocked.
pub record Attempts (n : ℕ) (before after : Task) : Type 0 where
  pub counted : after.attempt_count ≡ before.attempt_count + n
  pub limit : after.max_attempts ≡ before.max_attempts
  pub blocked :
      is_some before.replay_blocked_at ≡ true → (n ≡ 0) × (is_some after.replay_blocked_at ≡ true)

claim-Attempts :
    (config : Config) (now token fresh : ℕ) (task : Task)
    → let (c, t) = claim config now token fresh task in Attempts (is_started c) task t
unfolding claim finish_failed start_attempt
claim-Attempts config now token fresh task = ground (arith, claim_error-none now task)

settle-Attempts :
    (now ended jitter : ℕ) (task : Task) (error : String) (retryable : Bool)
    → Attempts 0 task (settle now ended jitter task error retryable).1
unfolding settle finish_failed requeue
settle-Attempts now ended jitter task error retryable = ground arith

extend_lease-Attempts :
    (config : Config) (at : Time) (task t : Task)
    → extend_lease config at task task.deadline_at ≡ ok t
    → Attempts 0 task t
unfolding extend_lease
extend_lease-Attempts config at task t e = ground arith

note_event-Attempts :
    (container : Json → String) (at : Time) (event_type : String) (event : Fields) (task : Task)
    → Attempts 0 task (note_event container at event_type event task)
unfolding note_event
note_event-Attempts container at event_type event task = ground arith

block_replay-Attempts :
    (at : Time) (reason : String) (task : Task) → Attempts 0 task (block_replay at reason task)
unfolding block_replay
block_replay-Attempts at reason task = ground arith

complete-Attempts :
    (at : Time) (task : Task) (trace_id : Option String) (answer : TaskResult)
    → Attempts 0 task (complete at task trace_id answer)
unfolding complete
complete-Attempts at task trace_id answer = ground arith

recover-Attempts : (now : Time) (task : Task) → Attempts 0 task (recover now task)
unfolding recover
recover-Attempts now task = ground arith

cancel_task-Attempts :
    (now : Time) (task t : Task) → cancel_task now (some task) ≡ ok t → Attempts 0 task t
unfolding cancel_task
cancel_task-Attempts now task t e = ground arith

update_task-Attempts :
    (now : Time) (payload : TaskUpdate) (task t : Task)
    → update_task now payload (some task) ≡ ok t
    → Attempts 0 task t
unfolding update_task
update_task-Attempts now payload task t e = ground arith

same-Attempts : (task : Task) → Attempts 0 task task
same-Attempts task = ground arith

write_event-Attempts : (info : EventInfo) (task : Task) → Attempts 0 task (write_event info task)
unfolding write_event
write_event-Attempts info task = ground arith

Step-Attempts :
    (config : Config) (container : Json → String) (w u : World) (s : Step config container w u)
    → Attempts (starts_of s) w.row u.row
Step-Attempts config container w u (claimed now token fresh new) =
    claim-Attempts config now token fresh w.row
Step-Attempts config container w u (noted lease now at event_type event t e) =
    rw (record_event_effect lease now at w.row container event_type event e).1
      (note_event-Attempts container at event_type event w.row)
Step-Attempts config container w u (beat lease now at t e) =
    extend_lease-Attempts config at w.row t (heartbeat_effect lease now at w.row config e).1
Step-Attempts config container w u (dispatched task_id lease now at tool_name t e) =
    rw (mark_dispatch_effect lease now at w.row task_id tool_name e).1
      (block_replay-Attempts at (dispatch_reason tool_name) w.row)
Step-Attempts config container w u (answered lease now at draft before after t e) =
    elim (save_message_effect lease now at w.row draft before after e).1 [
      | inl same ↦ rw same (same-Attempts w.row)
      | inr marked ↦ rw marked (block_replay-Attempts at "Assistant answer saved" w.row)
    ]
Step-Attempts config container w u (settled lease now ended jitter error retryable outcome t e) =
    rw (finish_or_retry_effect lease now ended w.row jitter error retryable outcome e).1
      (settle-Attempts now ended jitter w.row error retryable)
Step-Attempts config container w u (completed lease now ended trace_id answer t e) =
    rw (succeed_effect lease now ended w.row trace_id answer e).1
      (complete-Attempts ended w.row (trace_or trace_id w.row.trace_id) answer)
Step-Attempts config container w u (reported lease now info t b e) =
    elim (event_cases lease now info w.row t e) [
      | inl same ↦ rw same (same-Attempts w.row)
      | inr written ↦ rw written (write_event-Attempts info w.row)
    ]
Step-Attempts config container w u (recovered now _) = recover-Attempts now w.row
Step-Attempts config container w u (cancelled now t e) = cancel_task-Attempts now w.row t e
Step-Attempts config container w u (edited now payload t b e) =
    update_task-Attempts now payload w.row t e

Attempts-trans : (n m : ℕ) (a b c : Task) → Attempts n a b → Attempts m b c → Attempts (n + m) a c
Attempts-trans n m a b c p q = ground arith

pub Reach-Attempts :
    (config : Config) (container : Json → String) (w u : World) (r : Reach config container w u)
    → Attempts (starts r) w.row u.row
Reach-Attempts config container w u here = same-Attempts w.row
Reach-Attempts config container w u (next {u = v} r s) =
    Attempts-trans (starts r) (starts_of s) w.row v.row u.row
      (Reach-Attempts config container w v r) (Step-Attempts config container v u s)

-- From a sound row, however the transactions interleave, the attempts that have started are at most
-- `max_attempts` less those counted already, and `attempt_count` counts exactly those that started.
pub attempts_bounded :
    (config : Config) (container : Json → String) (w u : World) (r : Reach config container w u)
    → IsSound w.row
    → (w.row.attempt_count + starts r ≤ w.row.max_attempts)
      × (u.row.attempt_count ≡ w.row.attempt_count + starts r)
attempts_bounded config container w u r h =
    let a = Reach-Attempts config container w u r in
    let b = Reach-IsSound config container w u r h in
    (omega (arith, a.counted, a.limit, b.budget), a.counted)

-- Once a tool dispatch or a saved answer has marked the row against replay, no later transaction
-- starts another attempt, and the mark stays.
pub no_replay_after_dispatch :
    (config : Config) (container : Json → String) (w u : World) (r : Reach config container w u)
    → is_some w.row.replay_blocked_at ≡ true
    → (starts r ≡ 0) × (is_some u.row.replay_blocked_at ≡ true)
no_replay_after_dispatch config container w u r h =
    (Reach-Attempts config container w u r).blocked h
