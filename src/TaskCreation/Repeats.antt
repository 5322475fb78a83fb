-- ===== src/TaskCreation/Repeats.antt =====
-- backend/app/api/routes/tasks.py: the same request for an agent task, sent twice.
use agent_demo.Prelude.{◌≡◌, List, [], ◌∷◌}
use agent_demo.Task.{Task}
use agent_demo.TaskCreation.{request_fingerprint}

-- What a change of a row leaves as it was.
pub record Keeps (before after : Task) : Type 0 where
  pub same_id : after.id ≡ before.id
  pub same_user : after.user_id ≡ before.user_id
  pub same_key : after.idempotency_key ≡ before.idempotency_key
  pub same_request : after.metadata.request_fingerprint ≡ before.metadata.request_fingerprint

-- The rows at a later time: each may have changed, and others may have been added.
pub data Later : List Task → List Task → Type 0 where
  added : (tasks : List Task) → Later [] tasks
  changed :
      (before after : Task) (rows tasks : List Task)
      → Keeps before after
      → Later rows tasks
      → Later (before ∷ rows) (after ∷ tasks)
