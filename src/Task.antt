-- ===== src/Task.antt =====
-- backend/app/models/task.py: the task row, its statuses and the table of status transitions.
-- Times are instants in microseconds since 0001-01-01 UTC, identifiers and tokens are numbers.
use agent_demo.Prelude.{
  ℕ, ◌*◌, String, Bool, true, false, ◌||◌, Option, none, some, List, [], ◌∷◌, ◌==◌, member, leb,
}
use agent_demo.Json.{Json}

pub data Status : Type 0 where
  queued running succeeded failed cancelled stale : Status

pub data Kind : Type 0 where
  manual agent : Kind

-- The text that is stored for a status.
pub status_text : Status → String
status_text queued = "queued"
status_text running = "running"
status_text succeeded = "succeeded"
status_text failed = "failed"
status_text cancelled = "cancelled"
status_text stale = "stale"

abbrev statuses : List String
statuses = "queued" ∷ "running" ∷ "succeeded" ∷ "failed" ∷ "cancelled" ∷ "stale" ∷ []

pub is_valid_task_status : String → Bool
is_valid_task_status s = member s statuses

-- TERMINAL_TASK_STATUSES, as a test
abbrev pub is_terminal : Status → Bool
is_terminal queued = false
is_terminal running = false
is_terminal succeeded = true
is_terminal failed = true
is_terminal cancelled = true
is_terminal stale = true

abbrev status_code : Status → ℕ
status_code queued = 0
status_code running = 1
status_code succeeded = 2
status_code failed = 3
status_code cancelled = 4
status_code stale = 5

abbrev pub same_status : Status → Status → Bool
same_status a b = status_code a == status_code b

abbrev status_in : Status → List Status → Bool
status_in s [] = false
status_in s (t ∷ ts) = same_status s t || status_in s ts

-- TASK_STATUS_TRANSITIONS
abbrev task_status_transitions : Status → List Status
task_status_transitions queued = queued ∷ running ∷ failed ∷ cancelled ∷ []
task_status_transitions running = running ∷ succeeded ∷ failed ∷ cancelled ∷ stale ∷ []
task_status_transitions succeeded = succeeded ∷ []
task_status_transitions failed = failed ∷ []
task_status_transitions cancelled = cancelled ∷ []
task_status_transitions stale = stale ∷ []

unfoldable pub is_valid_task_status_transition : Status → Status → Bool
is_valid_task_status_transition current next = status_in next (task_status_transitions current)

abbrev pub Time : Type 0
Time = ℕ

-- `timedelta(seconds=n)`
abbrev pub seconds : ℕ → ℕ
seconds n = n * 1000000

-- An entry of `metadata["events"]`: `_record_event` and `_record_mcp_task_event` write the first
-- and the third form, `_finish_or_retry` the second.
pub data TaskEvent : Type 0 where
  recorded : String → Time → ℕ → List (String × Json) → TaskEvent
  retry_scheduled : Time → ℕ → Time → String → TaskEvent
  mcp_event : String → String → List (String × Json) → TaskEvent

-- The keys of `metadata_` that the code reads or writes; `scheduled_for` and `manual` are those of
-- its "schedule" object.
pub record Metadata : Type 0 where
  pub events : List TaskEvent
  pub request_fingerprint : Option String
  pub scheduled_for : Option Time
  pub dispatched_manually : Bool

pub record TaskResult : Type 0 where
  pub answer : String
  pub result_conversation : Option ℕ

pub record Task : Type 0 where
  pub id : ℕ
  pub user_id : Option ℕ
  pub conversation_id : Option ℕ
  pub schedule_id : Option ℕ
  pub name : String
  pub kind : Kind
  pub prompt : Option String
  pub status : Status
  pub progress : ℕ
  pub error : Option String
  pub task_result : Option TaskResult
  pub trace_id : Option String
  pub idempotency_key : Option String
  pub attempt_count : ℕ
  pub max_attempts : ℕ
  pub next_attempt_at : Option Time
  pub heartbeat_at : Option Time
  pub lease_expires_at : Option Time
  pub run_token : Option ℕ
  pub timeout_seconds : ℕ
  pub deadline_at : Option Time
  pub replay_blocked_at : Option Time
  pub replay_blocked_reason : Option String
  pub metadata : Metadata
  pub started_at : Option Time
  pub finished_at : Option Time

abbrev pub is_agent : Kind → Bool
is_agent agent = true
is_agent manual = false

-- `at is not None and at <= now`
abbrev pub passed : Option Time → Time → Bool
passed none now = false
passed (some at) now = leb at now

-- `token == other` on optional identifiers
abbrev pub holds : Option ℕ → ℕ → Bool
holds none token = false
holds (some t) token = t == token
