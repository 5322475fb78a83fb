-- ===== src/TaskCreation.antt =====
-- backend/app/api/routes/tasks.py: the requests that create tasks, and the idempotency key.
-- `rows` are the tasks; `fresh` is the id of a new row. The scheduler's `enqueue` that follows is left to
-- JobPool.
pub mod Repeats
use agent_demo.Prelude.{
  ℕ, ◌+◌, String, Bool, true, false, not, ◌&&◌, ◌||◌, Option, none, some, List, [], ◌∷◌, ◌++◌, ◌==◌,
  str_eq, if◌then◌else◌, strip, cut, concat, or_else, decimal,
}
use agent_demo.Outcome.{
  Error, http, value_error, runtime_error, Result, ok, err, ◌>>=◌, ◌>>◌, guard,
}
use agent_demo.Task.{Task, Metadata, Time, seconds, manual, agent, queued, is_agent, holds}

abbrev empty_metadata : Metadata
empty_metadata = record {
  events = [];
  request_fingerprint = none;
  scheduled_for = none;
  dispatched_manually = false;
}

-- The columns at their defaults.
abbrev pub blank_task : ℕ → String → Task
blank_task fresh name = record {
  id = fresh;
  user_id = none;
  conversation_id = none;
  schedule_id = none;
  name = name;
  kind = manual;
  prompt = none;
  status = queued;
  progress = 0;
  error = none;
  task_result = none;
  trace_id = none;
  idempotency_key = none;
  attempt_count = 0;
  max_attempts = 3;
  next_attempt_at = none;
  heartbeat_at = none;
  lease_expires_at = none;
  run_token = none;
  timeout_seconds = 180;
  deadline_at = none;
  replay_blocked_at = none;
  replay_blocked_reason = none;
  metadata = empty_metadata;
  started_at = none;
  finished_at = none;
}

pub record TaskCreate : Type 0 where
  pub name : String
  pub conversation_id : Option ℕ
  pub trace_id : Option String
  pub metadata : Metadata

pub record AgentTaskCreate : Type 0 where
  pub prompt : String
  pub name : Option String
  pub conversation_id : Option ℕ
  pub idempotency_key : Option String
  pub max_attempts : Option ℕ
  pub timeout_seconds : ℕ
  pub deadline_seconds : ℕ

-- `owned` is `get_owned_conversation(…) is not None`.
unfoldable pub check_conversation : (ℕ → Bool) → Option ℕ → Result (Unit {0})
check_conversation owned none = ok tt
check_conversation owned (some conversation) =
    guard (owned conversation) (http 404 "Conversation not found")

unfoldable pub create_task : (ℕ → Bool) → ℕ → ℕ → TaskCreate → List Task → Result (Task × List Task)
unfolding check_conversation
create_task owned user fresh payload rows = do
  check_conversation owned payload.conversation_id
  let task : Task = record (blank_task fresh payload.name) {
    user_id = some user;
    conversation_id = payload.conversation_id;
    max_attempts = 1;
    trace_id = payload.trace_id;
    metadata = payload.metadata;
  }
  ok (task, rows ++ task ∷ [])

abbrev has_key : ℕ → String → Task → Bool
has_key user key task =
    holds task.user_id user && elim task.idempotency_key [ none ↦ false | some k ↦ str_eq k key ]

unfoldable pub get_task_by_idempotency_key : ℕ → String → List Task → Option Task
get_task_by_idempotency_key user key [] = none
get_task_by_idempotency_key user key (t ∷ ts) =
    if has_key user key t then some t else get_task_by_idempotency_key user key ts

first_line : List String → String
first_line [] = "Agent task"
first_line (line ∷ lines) =
    let rest = first_line lines in if str_eq (strip line) "" then rest else strip line

-- `splitlines` is Python's `str.splitlines`.
unfoldable pub agent_task_name : (String → List String) → String → String
unfolding first_line
agent_task_name splitlines prompt = cut 80 (first_line (splitlines prompt))

-- `x or default`
abbrev text_or : Option String → String → String
text_or none default = default
text_or (some s) default = if str_eq s "" then default else s

abbrev number_or : Option ℕ → ℕ → ℕ
number_or none default = default
number_or (some n) default = if n == 0 then default else n

-- `digest` is the hash of the JSON text of the values.
unfoldable pub request_fingerprint :
    (AgentTaskCreate → String) → (String → List String) → ℕ → AgentTaskCreate → String
request_fingerprint digest splitlines default payload = digest (record payload {
  idempotency_key = none;
  name = some (strip (text_or payload.name (agent_task_name splitlines payload.prompt)));
  max_attempts = some (number_or payload.max_attempts default);
})

abbrev same_conversation : Option ℕ → Option ℕ → Bool
same_conversation none none = true
same_conversation (some a) (some b) = a == b
same_conversation _ _ = false

abbrev same_prompt : Option String → String → Bool
same_prompt none prompt = false
same_prompt (some p) prompt = str_eq p prompt

is_repeat : Option String → Task → AgentTaskCreate → String → Bool
is_repeat none task payload fingerprint =
    is_agent task.kind
    && same_prompt task.prompt payload.prompt
    && same_conversation task.conversation_id payload.conversation_id
is_repeat (some saved) task payload fingerprint =
    if str_eq saved ""
    then is_agent task.kind
      && same_prompt task.prompt payload.prompt
      && same_conversation task.conversation_id payload.conversation_id
    else str_eq saved fingerprint

unfoldable pub validate_repeated_request : Task → AgentTaskCreate → String → Result (Unit {0})
unfolding is_repeat
validate_repeated_request task payload fingerprint =
    guard (is_repeat task.metadata.request_fingerprint task payload fingerprint)
      (http 409 "Idempotency key was already used for a different task request")

-- `payload.idempotency_key.strip() if payload.idempotency_key else None`
abbrev key_of : Option String → Option String
key_of none = none
key_of (some s) = if str_eq s "" then none else some (strip s)

-- The task that holds the key already, where the key is not empty.
abbrev existing_task : ℕ → Option String → List Task → Option Task
existing_task user none rows = none
existing_task user (some key) rows =
    if str_eq key "" then none else get_task_by_idempotency_key user key rows

-- The database's unique key on the user and the idempotency key.
abbrev is_taken : ℕ → Option String → List Task → Bool
is_taken user none rows = false
is_taken user (some key) rows = elim (get_task_by_idempotency_key user key rows) [
  | none ↦ false
  | some t ↦ true
]

unfoldable pub new_agent_task :
    (String → List String) → ℕ → ℕ → Time → Time → ℕ → AgentTaskCreate → String → Task
new_agent_task splitlines default fresh now later user payload fingerprint =
    record (blank_task fresh
      (strip (text_or payload.name (agent_task_name splitlines (strip payload.prompt))))) {
        kind = agent;
        prompt = some (strip payload.prompt);
        user_id = some user;
        conversation_id = payload.conversation_id;
        idempotency_key = key_of payload.idempotency_key;
        max_attempts = number_or payload.max_attempts default;
        next_attempt_at = some now;
        timeout_seconds = payload.timeout_seconds;
        deadline_at = some (later + seconds payload.deadline_seconds);
        metadata = record empty_metadata { request_fingerprint = some fingerprint };
      }

repeated : Task → AgentTaskCreate → String → List Task → Result (Task × List Task)
repeated task payload fingerprint rows = do
  validate_repeated_request task payload fingerprint
  ok (task, rows)

-- The commit of a new row. `IntegrityError` is raised again where the key is not found.
insert : ℕ → AgentTaskCreate → String → Task → List Task → Result (Task × List Task)
unfolding repeated
insert user payload fingerprint task rows =
    if is_taken user task.idempotency_key rows
    then elim (existing_task user task.idempotency_key rows) [
      | none ↦ err (runtime_error "IntegrityError")
      | some existing ↦ repeated existing payload fingerprint rows
    ]
    else ok (task, rows ++ task ∷ [])

create_fresh :
    Option Task → ℕ → AgentTaskCreate → String → Task → List Task → Result (Task × List Task)
unfolding insert repeated
create_fresh none user payload fingerprint task rows = insert user payload fingerprint task rows
create_fresh (some existing) user payload fingerprint task rows =
    repeated existing payload fingerprint rows

-- `seen` are the rows at the first look for the key, `rows` those at the commit.
unfoldable pub create_agent_task :
    (ℕ → Bool)
    → (AgentTaskCreate → String)
    → (String → List String)
    → ℕ
    → ℕ
    → Time
    → Time
    → ℕ
    → AgentTaskCreate
    → List Task
    → List Task
    → Result (Task × List Task)
unfolding check_conversation create_fresh new_agent_task
create_agent_task owned digest splitlines default fresh now later user payload seen rows = do
  check_conversation owned payload.conversation_id
  let fingerprint = request_fingerprint digest splitlines default payload
  create_fresh (existing_task user (key_of payload.idempotency_key) seen) user payload fingerprint
      (new_agent_task splitlines default fresh now later user payload fingerprint) rows
