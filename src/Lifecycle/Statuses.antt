-- ===== src/Lifecycle/Statuses.antt =====
-- The statuses that a task moves through, against the table of transitions.
use agent_demo.Prelude.{
  ltb, max, ◌+◌, is_some, not, ◌&&◌, false, ℕ, ◌≡◌, ◌⊎◌, inl, inr, refl, String, Bool, true, some,
  arith,
}
use agent_demo.Json.{Json}
use agent_demo.Outcome.{ok}
use agent_demo.Task.{
  Task, Time, Status, running, queued, is_terminal, passed, is_valid_task_status_transition,
}
use agent_demo.Lease.{block_replay}
use agent_demo.Runner.{
  Config, claim, start_attempt, settle, finish_failed, requeue, complete, extend_lease,
}
use agent_demo.Runner.Events.{note_event}
use agent_demo.Runner.Settling.{retries}
use agent_demo.Recovery.{recover, is_abandoned}
use agent_demo.TaskRoutes.{cancel_task, TaskUpdate, update_task}
use agent_demo.ToolExecutor.TaskEvents.{write_event}
use agent_demo.Lifecycle.{
  World, Step, Reach, claimed, noted, beat, dispatched, answered, settled, completed, reported,
  recovered, cancelled, edited, here, next,
}
use agent_demo.Lifecycle.Effects.{
  event_cases, record_event_effect, heartbeat_effect, mark_dispatch_effect, save_message_effect,
  succeed_effect, finish_or_retry_effect,
}

-- The move is in the table, or a running task is queued again, as seen from outside of the worker.
abbrev pub Moves : Status → Status → Type 0
Moves before after =
    (is_valid_task_status_transition before after ≡ true) ⊎ ((before ≡ running) × (after ≡ queued))

-- The move is in the table, or a running task is queued again where `again` allows it.
abbrev pub MovesBy : Bool → Status → Status → Type 0
MovesBy again before after =
    (is_valid_task_status_transition before after ≡ true)
    ⊎ (again ≡ true) × (before ≡ running) × (after ≡ queued)

-- Whether a transaction may queue a running task again: a worker whose attempt failed, where the row
-- is not marked against replay, the retry falls before the deadline, the error allows it and attempts
-- are left, and the recovery of an abandoned row, where it is not marked, the deadline has not passed
-- and attempts are left.
abbrev pub queues_again :
    {config : Config} {container : Json → String} {w u : World} → Step config container w u → Bool
queues_again {w = w} (settled lease now ended jitter error retryable outcome t e) =
    retries (now + jitter) w.row retryable
queues_again {w = w} (recovered now e) =
    not (is_some w.row.replay_blocked_at)
    && not (passed w.row.deadline_at now)
    && ltb (max 1 w.row.attempt_count) (max 1 w.row.max_attempts)
queues_again (claimed now token fresh new) = false
queues_again (noted lease now at event_type event t e) = false
queues_again (beat lease now at t e) = false
queues_again (dispatched task_id lease now at tool_name t e) = false
queues_again (answered lease now at draft before after t e) = false
queues_again (completed lease now ended trace_id answer t e) = false
queues_again (reported lease now info t b e) = false
queues_again (cancelled now t e) = false
queues_again (edited now payload t b e) = false

claim-Moves :
    (config : Config) (now token fresh : ℕ) (task : Task)
    → MovesBy false task.status (claim config now token fresh task).1.status
unfolding claim finish_failed start_attempt is_valid_task_status_transition
claim-Moves config now token fresh task = ground arith

settle-Moves :
    (now ended jitter : ℕ) (task : Task) (error : String) (retryable : Bool)
    → task.status ≡ running
    → MovesBy
        (retries (now + jitter) task retryable)
        task.status
        (settle now ended jitter task error retryable).1.status
unfolding settle finish_failed requeue is_valid_task_status_transition
settle-Moves now ended jitter task error retryable h = ground arith

extend_lease-Moves :
    (config : Config) (at : Time) (task t : Task)
    → extend_lease config at task task.deadline_at ≡ ok t
    → MovesBy false task.status t.status
unfolding extend_lease is_valid_task_status_transition
extend_lease-Moves config at task t e = ground arith

recover-Moves :
    (now : Time) (task : Task)
    → is_abandoned now task ≡ true
    → MovesBy
        (not (is_some task.replay_blocked_at)
          && not (passed task.deadline_at now)
          && ltb (max 1 task.attempt_count) (max 1 task.max_attempts))
        task.status
        (recover now task).status
unfolding recover is_abandoned is_valid_task_status_transition
recover-Moves now task h = ground arith

cancel_task-Moves :
    (now : Time) (task t : Task)
    → cancel_task now (some task) ≡ ok t
    → MovesBy false task.status t.status
unfolding cancel_task is_valid_task_status_transition
cancel_task-Moves now task t e = ground arith

update_task-Moves :
    (now : Time) (payload : TaskUpdate) (task t : Task)
    → update_task now payload (some task) ≡ ok t
    → MovesBy false task.status t.status
unfolding update_task is_valid_task_status_transition
update_task-Moves now payload task t e = ground arith

stays : (again : Bool) (s : Status) → MovesBy again s s
unfolding is_valid_task_status_transition
stays again s = ground arith

complete-Moves : (s : Status) → s ≡ running → MovesBy false s Status.succeeded
unfolding is_valid_task_status_transition
complete-Moves s h = ground arith

-- Every transaction moves the status as TASK_STATUS_TRANSITIONS allows, with two exceptions, which
-- queue a running task again: a worker's failed attempt where the row is not marked against replay, the
-- retry falls before the deadline, the error allows it and attempts are left, and a recovery where the
-- row is not marked, its deadline has not passed and attempts are left.
pub Step-Moves :
    (config : Config) (container : Json → String) (w u : World) (s : Step config container w u)
    → MovesBy (queues_again s) w.row.status u.row.status
unfolding note_event block_replay complete write_event
Step-Moves config container w u (claimed now token fresh new) =
    claim-Moves config now token fresh w.row
Step-Moves config container w u (noted lease now at event_type event t e) =
    rw (record_event_effect lease now at w.row container event_type event e).1
      (stays false w.row.status)
Step-Moves config container w u (beat lease now at t e) =
    extend_lease-Moves config at w.row t (heartbeat_effect lease now at w.row config e).1
Step-Moves config container w u (dispatched task_id lease now at tool_name t e) =
    rw (mark_dispatch_effect lease now at w.row task_id tool_name e).1 (stays false w.row.status)
Step-Moves config container w u (answered lease now at draft before after t e) =
    elim (save_message_effect lease now at w.row draft before after e).1 [
      | inl same ↦ rw same (stays false w.row.status)
      | inr marked ↦ rw marked (stays false w.row.status)
    ]
Step-Moves config container w u (settled lease now ended jitter error retryable outcome t e) =
    let (o, x) = finish_or_retry_effect lease now ended w.row jitter error retryable outcome e in
    rw x (settle-Moves now ended jitter w.row error retryable o.is_running)
Step-Moves config container w u (completed lease now ended trace_id answer t e) =
    let (o, x) = succeed_effect lease now ended w.row trace_id answer e in
    rw x (complete-Moves w.row.status o.is_running)
Step-Moves config container w u (reported lease now info t b e) =
    elim (event_cases lease now info w.row t e) [
      | inl same ↦ rw same (stays false w.row.status)
      | inr written ↦ rw written (stays false w.row.status)
    ]
Step-Moves config container w u (recovered now e) = recover-Moves now w.row e
Step-Moves config container w u (cancelled now t e) = cancel_task-Moves now w.row t e
Step-Moves config container w u (edited now payload t b e) = update_task-Moves now payload w.row t e

terminal_move : (again : Bool) (s t : Status) → is_terminal s ≡ true → MovesBy again s t → t ≡ s
unfolding is_valid_task_status_transition
terminal_move again s t h m = ground arith

-- A task that has succeeded, failed, been cancelled or gone stale keeps that status over any further
-- transactions, its owner's updates of a status included.
pub terminal_absorbs :
    (config : Config) (container : Json → String) (w u : World)
    → Reach config container w u
    → is_terminal w.row.status ≡ true
    → u.row.status ≡ w.row.status
terminal_absorbs config container w u here h = refl
terminal_absorbs config container w u (next {u = v} r s) h =
    let e = terminal_absorbs config container w v r h in
    terminal_move (queues_again s) w.row.status u.row.status h
      (rw e at (Step-Moves config container v u s))
