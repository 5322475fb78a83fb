-- ===== src/Lifecycle/Fencing.antt =====
-- Tokens that were drawn for an attempt and are no longer the row's.
use agent_demo.Prelude.{
  ℕ, ◌≡◌, ◌≢◌, ◌⊎◌, inl, inr, refl, ◌∙◌, String, Bool, true, false, Option, some, List, [], ◌∷◌,
  arith,
}
use agent_demo.Json.{Json, Fields}
use agent_demo.Outcome.{ok, err}
use agent_demo.Task.{Task, Time, TaskResult, holds}
use agent_demo.Lease.{TaskLease, no_live_lease, block_replay}
use agent_demo.Lease.Owner.{lock_lost}
use agent_demo.Runner.{
  Config, claim, start_attempt, settle, finish_failed, requeue, complete, extend_lease,
  finish_or_retry, succeed, heartbeat,
}
use agent_demo.Runner.Events.{note_event, record_event}
use agent_demo.Recovery.{recover}
use agent_demo.TaskRoutes.{cancel_task, TaskUpdate, update_task}
use agent_demo.Dispatch.{mark_dispatch}
use agent_demo.SaveMessage.{ChatMessage, save_message}
use agent_demo.ToolExecutor.TaskEvents.{write_event}
use agent_demo.Lifecycle.{
  World, Fresh, Step, Reach, claimed, noted, beat, dispatched, answered, settled, completed,
  reported, recovered, cancelled, edited, here, next,
}
use agent_demo.Lifecycle.Effects.{
  event_cases, record_event_effect, heartbeat_effect, mark_dispatch_effect, save_message_effect,
  succeed_effect, finish_or_retry_effect,
}

abbrev pub In : ℕ → List ℕ → Type 0
In token [] = ⊥
In token (t ∷ ts) = (t ≡ token) ⊎ In token ts

-- The token was drawn for an attempt, and the row does not carry it.
pub record IsSpent (token : ℕ) (w : World) : Type 0 where
  pub drawn : In token w.issued
  pub gone : holds w.row.run_token token ≡ false

Fresh-ne : (token new : ℕ) (issued : List ℕ) → In token issued → Fresh new issued → token ≢ new
Fresh-ne token new [] i f = absurd i
Fresh-ne token new (t ∷ ts) (inl e) f = λ p. f.0 (e ∙ p)
Fresh-ne token new (t ∷ ts) (inr i) f = Fresh-ne token new ts i f.1

module _ (token : ℕ) (task : Task) (gone : holds task.run_token token ≡ false) where
  claim_lost :
      (config : Config) (now new fresh : ℕ)
      → token ≢ new
      → holds (claim config now new fresh task).1.run_token token ≡ false
  unfolding claim finish_failed start_attempt
  claim_lost config now new fresh ne = ground arith

  settle_lost :
      (now ended jitter : ℕ) (error : String) (retryable : Bool)
      → holds (settle now ended jitter task error retryable).1.run_token token ≡ false
  unfolding settle finish_failed requeue
  settle_lost now ended jitter error retryable = ground arith

  extend_lease_lost :
      (config : Config) (at : Time) (t : Task)
      → extend_lease config at task task.deadline_at ≡ ok t
      → holds t.run_token token ≡ false
  unfolding extend_lease
  extend_lease_lost config at t e = ground arith

  recover_lost : (now : Time) → holds (recover now task).run_token token ≡ false
  unfolding recover
  recover_lost now = ground arith

  cancel_task_lost :
      (now : Time) (t : Task) → cancel_task now (some task) ≡ ok t → holds t.run_token token ≡ false
  unfolding cancel_task
  cancel_task_lost now t e = ground arith

  update_task_lost :
      (now : Time) (payload : TaskUpdate) (t : Task)
      → update_task now payload (some task) ≡ ok t
      → holds t.run_token token ≡ false
  unfolding update_task
  update_task_lost now payload t e = ground arith

Step-lost :
    (config : Config) (container : Json → String) (token : ℕ) (w u : World)
    → Step config container w u
    → In token w.issued
    → holds w.row.run_token token ≡ false
    → holds u.row.run_token token ≡ false
unfolding note_event block_replay complete write_event
Step-lost config container token w u (claimed now new fresh f) i g =
    claim_lost token w.row g config now new fresh (Fresh-ne token new w.issued i f)
Step-lost config container token w u (noted lease now at event_type event t e) i g =
    rw (record_event_effect lease now at w.row container event_type event e).1 g
Step-lost config container token w u (beat lease now at t e) i g =
    extend_lease_lost token w.row g config at t (heartbeat_effect lease now at w.row config e).1
Step-lost config container token w u (dispatched task_id lease now at tool_name t e) i g =
    rw (mark_dispatch_effect lease now at w.row task_id tool_name e).1 g
Step-lost config container token w u (answered lease now at draft before after t e) i g =
    elim (save_message_effect lease now at w.row draft before after e).1 [
      | inl same ↦ rw same g
      | inr marked ↦ rw marked g
    ]
Step-lost config container token w u (settled lease now ended jitter error retryable outcome t e) i
      g =
    rw (finish_or_retry_effect lease now ended w.row jitter error retryable outcome e).1
      (settle_lost token w.row g now ended jitter error retryable)
Step-lost config container token w u (completed lease now ended trace_id answer t e) i g =
    rw (succeed_effect lease now ended w.row trace_id answer e).1 refl
Step-lost config container token w u (reported lease now info t b e) i g =
    elim (event_cases lease now info w.row t e) [
      | inl same ↦ rw same g
      | inr written ↦ rw written g
    ]
Step-lost config container token w u (recovered now _) i g = recover_lost token w.row g now
Step-lost config container token w u (cancelled now t e) i g =
    cancel_task_lost token w.row g now t e
Step-lost config container token w u (edited now payload t b e) i g =
    update_task_lost token w.row g now payload t e

-- Tokens once drawn stay on the list.
Step-drawn :
    (config : Config) (container : Json → String) (token : ℕ) (w u : World)
    → Step config container w u
    → In token w.issued
    → In token u.issued
Step-drawn config container token w u (claimed now new fresh f) i = inr i
Step-drawn config container token w u _ i = i

-- A spent token stays spent, whatever happens later.
pub Reach-IsSpent :
    (config : Config) (container : Json → String) (token : ℕ) (w u : World)
    → Reach config container w u
    → IsSpent token w
    → IsSpent token u
Reach-IsSpent config container token w u here h = h
Reach-IsSpent config container token w u (next {u = v} r s) h =
    let i = Reach-IsSpent config container token w v r h in
    record {
      drawn = Step-drawn config container token v u s i.drawn;
      gone = Step-lost config container token v u s i.drawn i.gone;
    }

module _ (config : Config) (container : Json → String) (lease : TaskLease) (w u : World) where
  -- Once a token that was drawn is no longer the row's token, then after any further transactions
  -- each of the worker operations on that token (recording an event, the heartbeat, the tool
  -- dispatch mark, saving a message, settling a failure, completing) raises TaskLeaseLost.
  pub stale_worker_fenced :
      Reach config container w u
      → IsSpent lease.token w
      → (now at jitter : ℕ) (event_type : String) (event : Fields) (task_id : ℕ)
        (tool_name : String) (linked : Option Task) (draft : ChatMessage)
        (messages : List ChatMessage) (error : String) (retryable : Bool) (trace_id : Option String)
        (answer : TaskResult)
      → (record_event container (some lease) now at event_type event (some u.row)
          ≡ err no_live_lease)
        × (heartbeat config (some lease) now at (some u.row) ≡ err no_live_lease)
        × (mark_dispatch (some task_id) (some lease) now at tool_name (some u.row) linked
            ≡ err no_live_lease)
        × (save_message (some lease) now at draft (some u.row) messages ≡ err no_live_lease)
        × (finish_or_retry (some lease) now at jitter (some u.row) error retryable
            ≡ err no_live_lease)
        × (succeed (some lease) now at (some u.row) trace_id answer ≡ err no_live_lease)
  unfolding record_event heartbeat mark_dispatch save_message finish_or_retry succeed
  stale_worker_fenced r h now at jitter event_type event task_id tool_name linked draft messages
        error retryable trace_id answer =
      let gone = (Reach-IsSpent config container lease.token w u r h).gone in
      let live = lock_lost true lease now u.row gone in
      (rw live, rw live, rw live, rw live, rw (lock_lost false lease now u.row gone), rw live)
