-- ===== src/ToolExecutor.antt =====
-- backend/app/services/tool_executor.py: one tool call, from its guards to its audit row.
pub mod TaskEvents
pub mod Recording
pub mod Audits
pub mod Guards
use agent_demo.Prelude.{
  ℕ, String, Bool, true, false, not, ◌&&◌, ◌||◌, Option, none, some, List, [], ◌∷◌, ◌++◌, ◌==◌,
  is_some, is_none, if◌then◌else◌, str_eq, or_else, decimal,
}
use agent_demo.Json.{
  Json, null, number, text, arr, obj, Items, nil, cons, Fields, end, get, truthy, str, str_or,
}
use agent_demo.ToolCall.{
  Provider, Tool, CallStatus, ToolRunResponse, Audit, OutsideCall, Session, Reply, World, Request,
  is_mcp, Outcome, outcome_of_error, Clock, RunResult, local_plugin, mcp_server, success, failed,
  timeout, interrupted, returned, timed_out, stopped, raised, output, failing, cancelling,
  responded, reraised,
}
use agent_demo.Outcome.{
  Error, http, value_error, runtime_error, lease_lost, attribute_error, Result, ok, err, ◌>>=◌,
  ◌>>◌, guard,
}
use agent_demo.Task.{Task, Time}
use agent_demo.Lease.{TaskLease}
use agent_demo.Dispatch.{mark_dispatch}
use agent_demo.McpSecurity.{
  McpIdentity, McpSettings, enforce_mcp_tool_policy, ParsedUrl, validate_mcp_fetch_url,
}
use agent_demo.ToolArguments.{validate_arguments, fields_of}
use agent_demo.McpResult.{normalize_mcp_tool_result, join_lines}
use agent_demo.ToolOutput.{limit_output, output_limit, is_mcp_error_output}
use agent_demo.ToolExecutor.Recording.{put_row, row_of, task_event, started_event, record_audit}

abbrev nobody : McpIdentity
nobody = record { user_id = none; service_id = none; is_admin = false }

abbrev same_text : Option String → String → Bool
same_text none s = false
same_text (some t) s = str_eq t s

abbrev is_fetch : Tool → Bool
is_fetch tool = same_text tool.server_name "fetch" && same_text tool.provider_tool_id "fetch"

unfoldable pub validate : World → Tool → Json → Result (Unit {0})
validate world tool arguments =
    validate_arguments world.is_uuid (str world.container) world.list_text world.sorted_text
      (λ schema given. world.conforms schema (obj given)) tool.parameters arguments

-- `validate_mcp_fetch_url(str(arguments.get("url") or ""))`
unfoldable pub check_url : World → Json → Result (Unit {0})
check_url world arguments = do
  parsed ← world.parse_url (str_or world.container (get "url" (fields_of arguments)) "")
  validate_mcp_fetch_url world.lower world.bare world.local_name world.address parsed

-- The checks of `_dispatch_tool` before it calls the tool.
unfoldable pub dispatch_checks : World → Request → Tool → Result (Unit {0})
dispatch_checks world request tool =
    if is_mcp tool.provider
    then (do
      guard (tool.has_client && is_some tool.server_name && is_some tool.provider_tool_id)
          (runtime_error "MCP tool is missing client metadata")
      if is_fetch tool then check_url world request.arguments else ok tt
      enforce_mcp_tool_policy world.lower tool.permission tool.requires_confirmation
          request.confirmed (or_else request.identity nobody) world.settings world.settings false)
    else guard tool.has_handler (runtime_error "Local tool is missing a handler")

structured : Json → Json
structured (obj fields) = get "structuredContent" fields
structured _ = null

checked_output : World → Tool → Json → Option Fields → Result Json
unfolding structured
checked_output world tool result none = ok (normalize_mcp_tool_result world.container result)
checked_output world tool result (some schema) = do
  if is_mcp_error_output result then ok tt else world.conforms schema (structured result)
  ok (normalize_mcp_tool_result world.container result)

outcome_of_result : Result Json → Outcome
outcome_of_result (ok j) = output j
outcome_of_result (err e) = outcome_of_error e

-- What `_dispatch_tool` and the `except` clauses of `run` make of the reply.
unfoldable pub outcome_of_reply : World → Tool → Reply → Outcome
unfolding checked_output outcome_of_result
outcome_of_reply world tool timed_out = failing timeout "Tool execution timed out"
outcome_of_reply world tool stopped = cancelling
outcome_of_reply world tool (raised e) = outcome_of_error e
outcome_of_reply world tool (returned result) =
    if is_mcp tool.provider
    then outcome_of_result (checked_output world tool result tool.output_schema)
    else output result

answer : Request → Tool → Clock → ToolRunResponse → Session → RunResult × Session
answer request tool clock response session =
    (responded response, record_audit request tool clock response session)

texts_of : (Json → String) → Items → List String
texts_of container nil = []
texts_of container (cons (obj item) xs) =
    let rest = texts_of container xs in
    if truthy (get "text" item) then str container (get "text" item) ∷ rest else rest
texts_of container (cons _ xs) = texts_of container xs

abbrev default_error : String
default_error = "MCP tool returned an error result"

joined_or_default : List String → String
joined_or_default [] = default_error
joined_or_default parts = join_lines parts

raw_error_text : (Json → String) → Json → String
unfolding texts_of joined_or_default
raw_error_text container (obj raw) = elim (get "content" raw) [
  | arr content ↦ joined_or_default (texts_of container content)
  | _ ↦ default_error
]
raw_error_text container _ = default_error

-- `_mcp_error_text`
unfoldable pub mcp_error_text : (Json → String) → Json → String
unfolding raw_error_text
mcp_error_text container (obj result) = elim (get "content" result) [
  | text content ↦
      if str_eq content "" then raw_error_text container (get "raw" result) else content
  | _ ↦ raw_error_text container (get "raw" result)
]
mcp_error_text container _ = default_error

response_of_output : World → Tool → Json → ToolRunResponse
response_of_output world tool j =
    let limited = limit_output (output_limit tool.max_chars world.max_output_chars) j in
    if is_mcp_error_output j
    then record {
      status = failed;
      output = limited;
      error = some (mcp_error_text world.container limited);
    }
    else record { status = success; output = limited; error = none }

abbrev pub interrupted_response : ToolRunResponse
interrupted_response = record {
  status = interrupted;
  output = null;
  error = some "Tool execution interrupted; outcome may be unknown";
}

-- From the outcome of the `try` block to the end of `run`. A cancellation that reaches `run` outside of
-- that block is left out.
unfoldable pub conclude : World → Request → Tool → Clock → Outcome → Session → RunResult × Session
unfolding answer response_of_output
conclude world request tool clock (output j) session =
    answer request tool clock (response_of_output world tool j) session
conclude world request tool clock (failing status message) session =
    answer request tool clock (record { status = status; output = null; error = some message })
      session
conclude world request tool clock cancelling session = (
  reraised,
  if world.audit_in_time
      then record_audit request tool clock interrupted_response session
      else session,
)

abbrev pub call_of : Request → Tool → Session → OutsideCall
call_of request tool session = record {
  called = tool.name;
  arguments = request.arguments;
  row_then = row_of request.task_id session.tasks;
}

-- The call itself, which is noted before its reply is looked at.
dispatch : World → Request → Tool → Session → Result (Unit {0}) → Outcome × Session
dispatch world request tool session (err e) = (outcome_of_error e, session)
dispatch world request tool session (ok _) = (
  outcome_of_reply world tool (world.reply tool request.arguments),
  record session { calls = session.calls ++ call_of request tool session ∷ [] },
)

lease_row : Option TaskLease → (ℕ → Option Task) → Option Task
lease_row none tasks = none
lease_row (some lease) tasks = tasks lease.task_id

-- The gate: what is committed before the dispatch.
marked_row : Request → Option Task → Session → Session
marked_row request none session = session
marked_row request (some task) session = elim request.lease [
  | none ↦ session
  | some lease ↦ record session { tasks = put_row lease.task_id (some task) session.tasks }
]

gate : Request → Tool → Clock → Session → Result (Option Task)
unfolding lease_row
gate request tool clock session =
    if request.with_session
    then mark_dispatch request.task_id request.lease clock.lock_at clock.marked tool.name
        (lease_row request.lease session.tasks) (row_of request.task_id session.tasks)
    else ok none

gated : World → Request → Tool → Session → Result (Option Task) → Outcome × Session
unfolding dispatch marked_row
gated world request tool session (err e) = (outcome_of_error e, session)
gated world request tool session (ok row) =
    dispatch world request tool (marked_row request row session)
      (dispatch_checks world request tool)

-- The `try` block.
attempt : World → Request → Tool → Clock → Session → Result (Unit {0}) → Outcome × Session
unfolding gated gate
attempt world request tool clock session (err e) = (outcome_of_error e, session)
attempt world request tool clock session (ok _) =
    gated world request tool session (gate request tool clock session)

refuse : Request → Tool → Clock → String → Session → RunResult × Session
unfolding answer
refuse request tool clock message session =
    answer request tool clock (record { status = failed; output = null; error = some message })
      session

-- The session after the event that announces an MCP call.
begin : Request → Tool → Clock → Session → Session
unfolding task_event started_event
begin request tool clock session = record session {
  tasks = task_event request tool clock.began (started_event request tool) session.tasks;
}

-- `ToolExecutor.run`
unfoldable pub run : World → Request → Tool → Clock → Session → RunResult × Session
unfolding refuse attempt begin
run world request tool clock session =
    if not tool.enabled
    then refuse request tool clock "Tool is disabled" session
    else if tool.requires_confirmation && not request.confirmed
    then refuse request tool clock "Tool requires confirmation before execution" session
    else let (outcome, after) =
        attempt world request tool clock (begin request tool clock session)
          (validate world tool request.arguments) in
      conclude world request tool clock outcome after
