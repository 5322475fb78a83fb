-- ===== src/Examples/Tools.antt =====
-- A confirmed write by a leased task, and cut outputs.
use agent_demo.Prelude.{
  ◌⊎◌, ℕ, ◌+◌, ◌≤◌, ◌≡◌, ◌⊎◌, refl, true, false, Option, none, some, [], ◌∷◌, ◌++◌, ◌==◌,
  if◌then◌else◌,
}
use agent_demo.Json.{Json, text, obj, arr, nil, cons, end, field}
use agent_demo.Outcome.{ok}
use agent_demo.Task.{Task, seconds}
use agent_demo.ToolCall.{World, Request, Tool, Clock, Session, OutsideCall, returned, mcp_server}
use agent_demo.ToolExecutor.{run}
use agent_demo.ToolExecutor.Guards.{IsCall, Marked, run_calls, run_marks_first}
use agent_demo.ToolExecutor.Audits.{Audited, Unaudited, run_audits_once}
use agent_demo.ToolOutput.{limit_output}
use agent_demo.ToolOutput.Bounds.{text_size, limit_output_size}
use agent_demo.Examples.{container, running_task, lease}

abbrev world : World
world = record {
  is_uuid = λ s. true;
  container = container;
  list_text = λ xs. "[]";
  sorted_text = λ xs. "[]";
  conforms = λ schema j. ok tt;
  parse_url = λ s. ok (record { scheme = "https"; hostname = some s });
  lower = λ s. s;
  bare = λ s. s;
  local_name = λ s. false;
  address = λ s. none;
  audit_in_time = true;
  reply = λ tool j. returned (obj (field "content" (text "written") end));
  settings = record {
    access_policy = "local-only";
    remote_enabled = false;
    confirmation_by_default = true;
  };
  max_output_chars = 4000;
}

abbrev tool : Tool
tool = record {
  name = "mcp__files__write_file";
  provider = mcp_server;
  enabled = true;
  requires_confirmation = true;
  permission = some "write";
  parameters = field "required" (arr (cons (text "path") nil)) end;
  output_schema = none;
  max_chars = none;
  server_name = some "files";
  provider_tool_id = some "write_file";
  has_client = true;
  has_handler = false;
}

abbrev request : Request
request = record {
  arguments = obj (field "path" (text "notes.md") end);
  confirmed = true;
  with_session = true;
  user_id = some 4;
  conversation_id = some 9;
  task_id = some 1;
  identity = none;
  lease = some lease;
  trace_id = "t-1";
}

abbrev clock : Clock
clock = record {
  began = seconds 20;
  lock_at = seconds 20;
  marked = seconds 20;
  ended = seconds 21;
  duration_ms = 900;
}

abbrev rows : ℕ → Option Task
rows key = if key == 1 then some running_task else none

abbrev session : Session
session = record { tasks = rows; audits = []; calls = [] }

run_calls_example :
    ((run world request tool clock session).1.calls ≡ session.calls)
    ⊎ IsCall world request tool session (run world request tool clock session).1
run_calls_example = run_calls world request tool clock session

run_marks_first_example :
    ((run world request tool clock session).1.calls ≡ session.calls)
    ⊎ ((call : OutsideCall) × ((run world request tool clock session).1.calls
          ≡ session.calls ++ call ∷ [])
        × Marked call.row_then)
run_marks_first_example =
    run_marks_first world request tool clock session 1 lease refl refl refl refl

run_audits_once_example :
    Audited request tool session
      (run world request tool clock session).0
      (run world request tool clock session).1
    ⊎ Unaudited world session
        (run world request tool clock session).0
        (run world request tool clock session).1
run_audits_once_example = run_audits_once world request tool clock session refl

abbrev long_output : Json
long_output =
    obj (field "lines" (arr (cons (text "first line") (cons (text "second line") nil))) end)

limit_output_size_example : text_size (limit_output 40 long_output) ≤ 40 + 24
limit_output_size_example = limit_output_size 40 long_output
