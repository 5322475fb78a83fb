-- ===== src/ToolCall.antt =====
-- backend/app/services/tool_executor.py: the values of one tool call. The tool itself, the JSON Schema
-- validator and the URL library are parameters (`World`); `calls` of a session is a record of the
-- outside calls, with the task row as it was committed when each was made.
use agent_demo.Prelude.{ℕ, String, Bool, true, false, Option, List}
use agent_demo.Json.{Json, Items, Fields}
use agent_demo.Outcome.{
  Error, http, value_error, runtime_error, lease_lost, attribute_error, wrong_type, key_error,
  Result,
}
use agent_demo.Task.{Task, Time}
use agent_demo.Lease.{TaskLease}
use agent_demo.McpSecurity.{McpIdentity, McpSettings, ParsedUrl}

pub data Provider : Type 0 where
  local_plugin mcp_server : Provider

pub record Tool : Type 0 where
  pub name : String
  pub provider : Provider
  pub enabled : Bool
  pub requires_confirmation : Bool
  pub permission : Option String
  pub parameters : Fields
  pub output_schema : Option Fields
  pub max_chars : Option ℕ
  pub server_name : Option String
  pub provider_tool_id : Option String
  pub has_client : Bool
  pub has_handler : Bool

pub data CallStatus : Type 0 where
  success failed timeout interrupted : CallStatus

pub record ToolRunResponse : Type 0 where
  pub status : CallStatus
  pub output : Json
  pub error : Option String

pub record Audit : Type 0 where
  pub tool_name : String
  pub provider : Provider
  pub user_id : Option ℕ
  pub conversation_id : Option ℕ
  pub task_id : Option ℕ
  pub status : CallStatus
  pub error : Option String
  pub input : Json
  pub trace_id : String
  pub duration_ms : ℕ

pub record OutsideCall : Type 0 where
  pub called : String
  pub arguments : Json
  pub row_then : Option Task

pub record Session : Type 0 where
  pub tasks : ℕ → Option Task
  pub audits : List Audit
  pub calls : List OutsideCall

-- What a call of the tool, under `wait_for`, comes back with.
pub data Reply : Type 0 where
  returned : Json → Reply
  timed_out : Reply
  stopped : Reply
  raised : Error → Reply

-- What the call takes from libraries: `conforms` is the JSON Schema validator, `list_text` and
-- `sorted_text` what Python prints for lists of names, `reply` the tool, `audit_in_time` whether the
-- audit of a cancelled call is committed: the code gives it five seconds and only logs its failure.
pub record World : Type 0 where
  pub is_uuid : String → Bool
  pub container : Json → String
  pub list_text : Items → String
  pub sorted_text : List String → String
  pub conforms : Fields → Json → Result (Unit {0})
  pub parse_url : String → Result ParsedUrl
  pub lower : String → String
  pub bare : String → String
  pub local_name : String → Bool
  pub address : String → Option Bool
  pub reply : Tool → Json → Reply
  pub audit_in_time : Bool
  pub settings : McpSettings
  pub max_output_chars : ℕ

pub record Request : Type 0 where
  pub arguments : Json
  pub confirmed : Bool
  pub with_session : Bool
  pub user_id : Option ℕ
  pub conversation_id : Option ℕ
  pub task_id : Option ℕ
  pub identity : Option McpIdentity
  pub lease : Option TaskLease
  pub trace_id : String

abbrev pub is_mcp : Provider → Bool
is_mcp mcp_server = true
is_mcp local_plugin = false

-- `TaskLeaseLost` is a `CancelledError`; of the others, HTTP errors give their detail.
pub data Outcome : Type 0 where
  output : Json → Outcome
  failing : CallStatus → String → Outcome
  cancelling : Outcome

abbrev pub outcome_of_error : Error → Outcome
outcome_of_error (http code detail) = failing failed detail
outcome_of_error (wrong_type s) = failing failed s
outcome_of_error (key_error s) = failing failed s
outcome_of_error (value_error s) = failing failed s
outcome_of_error (runtime_error s) = failing failed s
outcome_of_error (lease_lost s) = cancelling
outcome_of_error attribute_error = failing failed "'NoneType' object has no attribute"

-- The reads of the clock in one call, and its measured duration.
pub record Clock : Type 0 where
  pub began : Time
  pub lock_at : Time
  pub marked : Time
  pub ended : Time
  pub duration_ms : ℕ

-- `reraised`: the cancellation goes on.
pub data RunResult : Type 0 where
  responded : ToolRunResponse → RunResult
  reraised : RunResult
