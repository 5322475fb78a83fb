-- ===== src/Runner/Events.antt =====
-- backend/app/services/agent_task_runner.py: how a worker reads the runtime's events, records the
-- coarse ones on the task row, and decides how the run ended.
use agent_demo.Prelude.{
  ℕ, String, Bool, true, false, not, ◌&&◌, ◌||◌, Option, none, some, List, [], ◌∷◌, ◌++◌, min, max,
  str_eq, if◌then◌else◌, is_none, member, concat, contains_any, take_last,
}
use agent_demo.Json.{Json, obj, text, Fields, end, field, get, truthy, is_null, str, str_or}
use agent_demo.Outcome.{Result, ok, ◌>>=◌}
use agent_demo.Task.{Task, Time, recorded}
use agent_demo.Lease.{TaskLease, lock_task_lease, require_task}
use agent_demo.Runner.{max_task_events}

-- `_event_data` behind `json.loads`; `none` is a decoding error.
unfoldable pub event_data : String → Option Json → Fields
event_data raw none = field "message" (text raw) end
event_data raw (some (obj fields)) = fields
event_data raw (some value) = field "value" value end

abbrev persisted_event_types : List String
persisted_event_types = "status" ∷ "plan" ∷ "tool_call" ∷ "tool_result" ∷ "done" ∷ "error" ∷ []

abbrev pub compact_keys : List String
compact_keys =
    "label" ∷ "model" ∷ "tool_name" ∷ "provider" ∷ "provider_tool_id" ∷ "server_name" ∷ "status"
    ∷ "reason" ∷ "error" ∷ "message" ∷ "trace_id" ∷ []

pub pick : List String → Fields → List (String × Json)
pick [] event = []
pick (key ∷ keys) event =
    let rest = pick keys event in
    if is_null (get key event) then rest else (key, get key event) ∷ rest

-- STATUS_PROGRESS.get(label, 1)
status_progress : String → ℕ
status_progress label =
    if str_eq label "ensure_conversation"
    then 5
    else if str_eq label "load_history"
    then 10
    else if str_eq label "save_user_message"
    then 15
    else if str_eq label "retrieving_context"
    then 25
    else if str_eq label "planning"
    then 35
    else if str_eq label "generating"
    then 70
    else if str_eq label "save_assistant_message"
    then 90
    else 1

-- EVENT_PROGRESS.get(event_type, 1)
event_progress : String → ℕ
event_progress event_type =
    if str_eq event_type "plan"
    then 40
    else if str_eq event_type "tool_call"
    then 50
    else if str_eq event_type "tool_result"
    then 65
    else if str_eq event_type "done"
    then 100
    else 1

abbrev non_retryable_markers : List String
non_retryable_markers =
    "authentication" ∷ "confirmation" ∷ "forbidden" ∷ "invalid api key" ∷ "invalid input"
    ∷ "missing api key" ∷ "not include a prompt" ∷ "not available" ∷ "outside workspace"
    ∷ "permission denied" ∷ "requires confirmation" ∷ "unauthorized" ∷ []

abbrev retryable_markers : List String
retryable_markers =
    "429" ∷ "500" ∷ "502" ∷ "503" ∷ "504" ∷ "connection" ∷ "network" ∷ "rate limit" ∷ "temporarily"
    ∷ "timeout" ∷ "timed out" ∷ "unavailable" ∷ []

-- `casefold` is Python's `str.casefold`.
unfoldable pub is_retryable_error : (String → String) → String → Bool
is_retryable_error casefold error =
    if contains_any non_retryable_markers (casefold error)
    then false
    else if contains_any retryable_markers (casefold error)
    then true
    else true

-- What `run` collects while it iterates over the stream: the answer's parts, already joined, the
-- payload of the completion event, and the failure.
pub record Observed : Type 0 where
  pub answer : String
  pub done_payload : Option Fields
  pub failure : Option String

abbrev pub nothing_observed : Observed
nothing_observed = record { answer = ""; done_payload = none; failure = none }

abbrev pub confirmation_required_error : String
confirmation_required_error = "Tool requires confirmation before execution"

abbrev confirmation_failure : String
confirmation_failure =
    "This background task needs tool confirmation. Run the request in interactive chat to review and confirm the tool call."

-- `data.get("error") == CONFIRMATION_REQUIRED_ERROR`
abbrev pub is_text : String → Json → Bool
is_text s (text t) = str_eq t s
is_text s _ = false

-- `container` is what Python prints for a list or a dict.
module _ (container : Json → String) where
  -- `_progress`
  unfoldable pub progress_of : String → Fields → ℕ
  unfolding status_progress event_progress
  progress_of event_type event =
      if str_eq event_type "status"
      then status_progress (str_or container (get "label" event) "")
      else event_progress event_type

  -- The body of the `async for` over the runtime's stream, without `_record_event`.
  unfoldable pub observe : String → Fields → Observed → Observed
  observe event_type event seen =
      if str_eq event_type "token"
      then record seen {
        answer = concat (seen.answer ∷ str_or container (get "text" event) "" ∷ []);
      }
      else if str_eq event_type "done"
      then record seen { done_payload = some event }
      else if str_eq event_type "error"
      then record seen {
        failure = some (str_or container (get "message" event) "Background agent task failed");
      }
      else if str_eq event_type "tool_result"
          && is_text confirmation_required_error (get "error" event)
      then record seen { failure = some confirmation_failure }
      else seen

  unfoldable pub observe_all : List (String × Fields) → Observed → Observed
  observe_all [] seen = seen
  observe_all ((event_type, event) ∷ events) seen =
      observe_all events (observe event_type event seen)

  abbrev trace_of : Fields → Option String → Option String
  trace_of event saved =
      if truthy (get "trace_id" event) then some (str container (get "trace_id" event)) else saved

  -- `_record_event` behind its lock.
  unfoldable pub note_event : Time → String → Fields → Task → Task
  unfolding progress_of pick
  note_event at event_type event task = record task {
    metadata = record (task.metadata) {
      events = take_last max_task_events (
          task.metadata.events
          ++ recorded event_type at task.attempt_count (pick compact_keys event) ∷ []);
    };
    progress = max task.progress (min (progress_of event_type event) 95);
    trace_id = trace_of event task.trace_id;
  }

  unfoldable pub record_event :
      Option TaskLease → Time → Time → String → Fields → Option Task → Result Task
  record_event lease now at event_type event row = do
    held ← lock_task_lease true lease now row
    task ← require_task held
    ok (note_event at event_type event task)

-- `if event_type in PERSISTED_EVENT_TYPES`
unfoldable pub is_persisted : String → Bool
is_persisted event_type = member event_type persisted_event_types

-- `failure or …`
abbrev failure_text : Option String → String
failure_text none = "Agent task ended without a completion event"
failure_text (some failure) =
    if str_eq failure "" then "Agent task ended without a completion event" else failure

abbrev pub has_failure : Option String → Bool
has_failure none = false
has_failure (some failure) = not (str_eq failure "")

-- `if failure or done_payload is None`: the failure that ends the run, or none for a success.
unfoldable pub run_failure : Observed → Option String
run_failure seen =
    if has_failure seen.failure || is_none seen.done_payload
    then some (failure_text seen.failure)
    else none
