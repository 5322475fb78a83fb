-- ===== src/SaveMessage.antt =====
-- backend/app/agent/runtime.py, `_save_message`: the messages of conversations, which a retried task
-- must not write twice, and the mark against replay that a saved answer leaves.
pub mod Once
use agent_demo.Prelude.{
  ℕ, String, Bool, true, false, ◌&&◌, ◌||◌, Option, none, some, List, [], ◌∷◌, ◌++◌, ◌==◌,
  if◌then◌else◌, str_eq,
}
use agent_demo.Outcome.{Result, ok, ◌>>=◌}
use agent_demo.Task.{Task, Time, holds}
use agent_demo.Lease.{TaskLease, lock_task_lease, block_replay}

-- `agent_task` is `metadata["agent_task_id"]`.
pub record ChatMessage : Type 0 where
  pub conversation_id : ℕ
  pub role : String
  pub content : String
  pub model_name : Option String
  pub agent_task : Option ℕ

-- The `where` of the duplicate check.
abbrev pub is_copy : ℕ → String → ℕ → ChatMessage → Bool
is_copy conversation role task_id m =
    m.conversation_id == conversation && str_eq m.role role && holds m.agent_task task_id

unfoldable pub already_saved : ℕ → String → ℕ → List ChatMessage → Bool
already_saved conversation role task_id [] = false
already_saved conversation role task_id (m ∷ ms) =
    is_copy conversation role task_id m || already_saved conversation role task_id ms

-- The message and the task row (`none`: no row is held) as they are committed.
pub record Saved : Type 0 where
  pub messages : List ChatMessage
  pub task_row : Option Task

-- `draft` is the message without its task.
save_held : Time → ChatMessage → Option Task → List ChatMessage → Saved
unfolding already_saved
save_held at draft none messages = record { messages = messages ++ draft ∷ []; task_row = none }
save_held at draft (some task) messages =
    if already_saved draft.conversation_id draft.role task.id messages
    then record { messages = messages; task_row = some task }
    else record {
      messages = messages ++ record draft { agent_task = some task.id } ∷ [];
      task_row = some (
          if str_eq draft.role "assistant"
          then block_replay at "Assistant answer saved" task
          else task);
    }

unfoldable pub save_message :
    Option TaskLease → Time → Time → ChatMessage → Option Task → List ChatMessage → Result Saved
unfolding save_held
save_message lease now at draft row messages = do
  held ← lock_task_lease true lease now row
  ok (save_held at draft held messages)
