-- ===== src/Examples/Repeated.antt =====
-- A request for an agent task that is sent again after the task has ended.
use agent_demo.Prelude.{ℕ, String, Bool, true, none, some, List, [], ◌∷◌}
use agent_demo.Task.{Task, succeeded}
use agent_demo.TaskCreation.{AgentTaskCreate, request_fingerprint, new_agent_task}

abbrev payload : AgentTaskCreate
payload = record {
  prompt = "Write the weekly report";
  name = none;
  conversation_id = some 9;
  idempotency_key = some "report-0001";
  max_attempts = none;
  timeout_seconds = 180;
  deadline_seconds = 900;
}

abbrev owned : ℕ → Bool
owned conversation = true

abbrev digest : AgentTaskCreate → String
digest values = "digest"

abbrev splitlines : String → List String
splitlines prompt = prompt ∷ []

abbrev made : Task
made = new_agent_task splitlines 3 1 5 6 4 payload (request_fingerprint digest splitlines 3 payload)

abbrev ended : Task
ended = record made { status = succeeded; progress = 100; attempt_count = 1 }
