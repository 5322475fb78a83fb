-- ===== src/SaveMessage/Once.antt =====
-- backend/app/agent/runtime.py, `_save_message`: the copies of a message that a task leaves.
use agent_demo.Prelude.{
  ℕ, suc, ◌+◌, ◌≡◌, String, true, some, List, [], ◌∷◌, ◌++◌, max, arith, if◌then◌else◌, ltb,
}
use text.Mathlib.TextPositions.{eq_refl}
use agent_demo.Outcome.{ok}
use agent_demo.Task.{Task, Time}
use agent_demo.Lease.{TaskLease}
use agent_demo.Lease.Owner.{lock-cases}
use agent_demo.SaveMessage.{ChatMessage, Saved, is_copy, already_saved, save_message}

abbrev pub copies : ℕ → String → ℕ → List ChatMessage → ℕ
copies conversation role task_id [] = 0
copies conversation role task_id (m ∷ ms) =
    let rest = copies conversation role task_id ms in
    if is_copy conversation role task_id m then suc rest else rest

copies-append :
    (conversation : ℕ) (role : String) (task_id : ℕ) (ms : List ChatMessage) (m : ChatMessage)
    → copies conversation role task_id (ms ++ m ∷ [])
      ≡ copies conversation role task_id ms + copies conversation role task_id (m ∷ [])
copies-append conversation role task_id [] m = ground arith
copies-append conversation role task_id (x ∷ ms) m =
    ground (arith, copies-append conversation role task_id ms m)

already_saved-pos :
    (conversation : ℕ) (role : String) (task_id : ℕ) (ms : List ChatMessage)
    → already_saved conversation role task_id ms ≡ ltb 0 (copies conversation role task_id ms)
unfolding already_saved
already_saved-pos conversation role task_id [] = ground arith
already_saved-pos conversation role task_id (x ∷ ms) =
    ground (arith, already_saved-pos conversation role task_id ms)

-- A leased save leaves exactly one message of its role in the conversation for the task where there
-- was none, and adds none where there was one, so that a retried attempt repeats no message.
pub save_message_once :
    (lease : TaskLease) (now at : Time) (draft : ChatMessage) (task : Task)
    (messages : List ChatMessage) (saved : Saved)
    → save_message (some lease) now at draft (some task) messages ≡ ok saved
    → copies draft.conversation_id draft.role task.id saved.messages
      ≡ max (copies draft.conversation_id draft.role task.id messages) 1
unfolding save_message
save_message_once lease now at draft task messages saved h = ground (
  arith,
  lock-cases true lease now task,
  eq_refl draft.role,
  already_saved-pos draft.conversation_id draft.role task.id messages,
  copies-append draft.conversation_id draft.role task.id messages
      (record draft { agent_task = some task.id }),
)
