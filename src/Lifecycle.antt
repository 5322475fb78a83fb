-- ===== src/Lifecycle.antt =====
-- The life of one task: the transactions on its row, in any order, by any number of workers, recoveries
-- and owners. Each worker step is the code's function on the row, and its
-- premise is that the function returned. The executor reports the progress 25 or 100, or none, and a request may set one of at most 100.
mod Effects
pub mod Invariant
pub mod Fencing
pub mod Replay
pub mod Statuses
use agent_demo.Prelude.{
  or_else, ◌≤◌, ℕ, ◌≡◌, true, ◌≢◌, String, Bool, Option, none, some, List, [], ◌∷◌,
}
use agent_demo.Json.{Json, Fields}
use agent_demo.Outcome.{ok}
use agent_demo.Task.{Task, Time, TaskResult}
use agent_demo.Lease.{TaskLease}
use agent_demo.Runner.{Config, Claim, TaskRunOutcome, claim, finish_or_retry, succeed, heartbeat}
use agent_demo.Runner.Events.{record_event}
use agent_demo.Recovery.{is_abandoned, recover}
use agent_demo.TaskRoutes.{cancel_task, TaskUpdate, update_task}
use agent_demo.Dispatch.{mark_dispatch}
use agent_demo.ToolExecutor.TaskEvents.{EventInfo, record_mcp_task_event}
use agent_demo.SaveMessage.{ChatMessage, Saved, save_message}

-- The row, and every token that a claim has drawn so far.
pub record World : Type 0 where
  pub row : Task
  pub issued : List ℕ

-- What the code relies on in `uuid4()`: the new token differs from the earlier ones.
abbrev pub Fresh : ℕ → List ℕ → Type 0
Fresh token [] = Unit
Fresh token (t ∷ ts) = (t ≢ token) × Fresh token ts

pub data Step (config : Config) (container : Json → String) (w : World) : World → Type 0 where
  claimed :
      (now token fresh : ℕ)
      → Fresh token w.issued
      → Step config container w
          (record { row = (claim config now token fresh w.row).1; issued = token ∷ w.issued })
  noted :
      (lease : TaskLease) (now at : Time) (event_type : String) (event : Fields) (t : Task)
      → record_event container (some lease) now at event_type event (some w.row) ≡ ok t
      → Step config container w (record { row = t; issued = w.issued })
  beat :
      (lease : TaskLease) (now at : Time) (t : Task)
      → heartbeat config (some lease) now at (some w.row) ≡ ok t
      → Step config container w (record { row = t; issued = w.issued })
  dispatched :
      (task_id : ℕ) (lease : TaskLease) (now at : Time) (tool_name : String) (t : Task)
      → mark_dispatch (some task_id) (some lease) now at tool_name (some w.row) none ≡ ok (some t)
      → Step config container w (record { row = t; issued = w.issued })
  answered :
      (lease : TaskLease) (now at : Time) (draft : ChatMessage) (before after : List ChatMessage)
      (t : Task)
      → save_message (some lease) now at draft (some w.row) before
        ≡ ok (record { messages = after; task_row = some t })
      → Step config container w (record { row = t; issued = w.issued })
  settled :
      (lease : TaskLease) (now ended jitter : ℕ) (error : String) (retryable : Bool)
      (outcome : TaskRunOutcome) (t : Task)
      → finish_or_retry (some lease) now ended jitter (some w.row) error retryable ≡ ok (outcome, t)
      → Step config container w (record { row = t; issued = w.issued })
  completed :
      (lease : TaskLease) (now ended : Time) (trace_id : Option String) (answer : TaskResult)
      (t : Task)
      → succeed (some lease) now ended (some w.row) trace_id answer ≡ ok t
      → Step config container w (record { row = t; issued = w.issued })
  reported :
      (lease : Option TaskLease) (now : Time) (info : EventInfo) (t : Task)
      → or_else info.progress 0 ≤ 100
      → record_mcp_task_event lease now info (some w.row) ≡ some t
      → Step config container w (record { row = t; issued = w.issued })
  recovered :
      (now : Time)
      → is_abandoned now w.row ≡ true
      → Step config container w (record { row = recover now w.row; issued = w.issued })
  cancelled :
      (now : Time) (t : Task)
      → cancel_task now (some w.row) ≡ ok t
      → Step config container w (record { row = t; issued = w.issued })
  edited :
      (now : Time) (payload : TaskUpdate) (t : Task)
      → or_else payload.new_progress 0 ≤ 100
      → update_task now payload (some w.row) ≡ ok t
      → Step config container w (record { row = t; issued = w.issued })

pub data Reach (config : Config) (container : Json → String) (w : World) : World → Type 0 where
  here : Reach config container w w
  next :
      {u v : World}
      → Reach config container w u
      → Step config container u v
      → Reach config container w v
