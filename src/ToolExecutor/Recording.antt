-- ===== src/ToolExecutor/Recording.antt =====
-- backend/app/services/tool_executor.py, `_record_audit`: the audit row and the task events of a call.
use agent_demo.Prelude.{
  ℕ, String, Bool, true, false, ◌&&◌, Option, none, some, List, [], ◌∷◌, ◌++◌, ◌==◌, if◌then◌else◌,
  decimal,
}
use agent_demo.Json.{Json, null, number, text}
use agent_demo.Task.{Task, Time}
use agent_demo.ToolCall.{
  Provider, local_plugin, mcp_server, is_mcp, Tool, Request, Clock, Session, Audit, CallStatus,
  success, failed, timeout, interrupted, ToolRunResponse,
}
use agent_demo.ToolExecutor.TaskEvents.{EventInfo, record_mcp_task_event}

abbrev pub put_row : ℕ → Option Task → (ℕ → Option Task) → ℕ → Option Task
put_row key row tasks k = if k == key then row else tasks k

-- The row of the call's task, if it has one.
abbrev pub row_of : Option ℕ → (ℕ → Option Task) → Option Task
row_of none tasks = none
row_of (some key) tasks = tasks key

unfoldable pub task_event : Request → Tool → Time → EventInfo → (ℕ → Option Task) → ℕ → Option Task
task_event request tool now info tasks =
    if request.with_session && is_mcp tool.provider then write request.task_id else tasks
  where
    write : Option ℕ → ℕ → Option Task
    write none = tasks
    write (some key) = put_row key (record_mcp_task_event request.lease now info (tasks key)) tasks

abbrev pub succeeded_call : CallStatus → Bool
succeeded_call success = true
succeeded_call _ = false

status_name : CallStatus → String
status_name success = "success"
status_name failed = "failed"
status_name timeout = "timeout"
status_name interrupted = "interrupted"

provider_name : Provider → String
provider_name local_plugin = "local_plugin"
provider_name mcp_server = "mcp_server"

abbrev text_or_null : Option String → Json
text_or_null none = null
text_or_null (some s) = text s

-- The keys of an event that name the tool, before its payload.
identity_payload : Tool → List (String × Json) → List (String × Json)
unfolding provider_name
identity_payload tool payload =
    ("provider", text (provider_name tool.provider))
    ∷ ("server_name", text_or_null tool.server_name)
    ∷ ("provider_tool_id", text_or_null tool.provider_tool_id)
    ∷ payload

unfoldable pub finished_event : Request → Tool → Clock → ToolRunResponse → EventInfo
unfolding identity_payload status_name
finished_event request tool clock response = record {
  event_type =
      if succeeded_call response.status then "mcp_tool_call_finished" else "mcp_tool_call_failed";
  tool_name = tool.name;
  payload = identity_payload tool (
      ("trace_id", text request.trace_id)
      ∷ ("status", text (status_name response.status))
      ∷ ("error", text_or_null response.error)
      ∷ ("duration_ms", number (decimal clock.duration_ms))
      ∷ []);
  progress = if succeeded_call response.status then some 100 else none;
}

unfoldable pub started_event : Request → Tool → EventInfo
unfolding identity_payload
started_event request tool = record {
  event_type = "mcp_tool_call_started";
  tool_name = tool.name;
  payload = identity_payload tool (("trace_id", text request.trace_id) ∷ []);
  progress = some 25;
}

unfoldable pub audit_row : Request → Tool → Clock → ToolRunResponse → Audit
audit_row request tool clock response = record {
  tool_name = tool.name;
  provider = tool.provider;
  user_id = request.user_id;
  conversation_id = request.conversation_id;
  task_id = request.task_id;
  status = response.status;
  error = response.error;
  input = request.arguments;
  trace_id = request.trace_id;
  duration_ms = clock.duration_ms;
}

-- `_record_audit`
unfoldable pub record_audit : Request → Tool → Clock → ToolRunResponse → Session → Session
unfolding task_event finished_event audit_row
record_audit request tool clock response session =
    if request.with_session
    then record session {
      tasks =
          task_event request tool clock.ended (finished_event request tool clock response)
            session.tasks;
      audits = session.audits ++ audit_row request tool clock response ∷ [];
    }
    else session
