-- ===== src/Lib.antt =====
-- AgentDemo's backend: the durable life of background agent tasks, the approval of tool calls, the
-- execution of tools, and the security rules of MCP.
--
-- The parts and their files. Paths are from the repository's root.
--   Task              backend/app/models/task.py: the row, its statuses, the transition table
--   Lease             backend/app/services/task_lease.py: TaskLease, lock_task_lease, block_replay
--   Runner            backend/app/services/agent_task_runner.py: AgentTaskRunner. `claim` is the first
--                     transaction of `run`, `settle` and `finish_or_retry` are _finish_or_retry,
--                     `succeed` is the last transaction of `run`, `heartbeat` is a round of
--                     _heartbeat_loop; Runner.Events holds _record_event and the reading of events
--   Recovery          backend/app/services/task_scheduler.py: recover_stale_running_tasks
--   JobPool           backend/app/services/task_scheduler.py: enqueue, cancel, _job_finished
--   Schedules         backend/app/services/task_schedules.py: the next run of a schedule
--   ScheduleDispatch  backend/app/services/task_schedules.py: the due occurrence, the dispatch of due
--                     schedules and the task made for one; backend/app/api/routes/task_schedules.py:
--                     run_task_schedule_now, update_task_schedule
--   TaskRoutes        backend/app/api/routes/tasks.py: update_task, cancel_task
--   TaskCreation      backend/app/api/routes/tasks.py: create_task, create_agent_task
--   Dispatch          backend/app/services/tool_executor.py: the gate of `run` before the dispatch
--   SaveMessage       backend/app/agent/runtime.py: _save_message
--   Lifecycle         all transactions above on a task's row as one step relation
--   Approvals         backend/app/services/tool_approvals.py: ToolApprovalStore
--   McpSecurity       backend/app/core/mcp_security.py
--   ToolArguments     backend/app/services/tool_executor.py: _validate_arguments and its helpers
--   ToolOutput        backend/app/services/tool_executor.py: _limit_output and _output_limit
--   McpResult         backend/app/mcp/tools.py: normalize_mcp_tool_result
--   Graph             backend/app/agent/graph.py: the nodes of the agent and their order
--   AgentNodes        backend/app/agent/nodes.py: plan, execute_tool and preflight_confirmable_tool on what
--                     the graph branches on, and the runs of the graph
--   McpClient         backend/app/mcp/client.py: _pages, the discovery of a catalog. McpClient.Calls is
--                     _catalog, call_tool, read_resource, get_prompt and _run
--   Memory            backend/app/services/memory.py: _source_messages and _batch
--   ContextBudget     backend/app/agent/context_budget.py: fit_context
--   Chunking          backend/app/services/rag.py: _split_spans
--   ModelGateway      backend/app/services/model_gateway.py: what requests share. ModelGateway.Events is
--                     _sse_data, ModelGateway.Reply stream_reply, ModelGateway.Embeddings embed_texts
--   AuthLimits        backend/app/services/auth_limits.py: admit_auth_request
--   ToolCall          backend/app/services/tool_executor.py: tools, requests, sessions, responses
--   ToolExecutor      backend/app/services/tool_executor.py: `run`, from guards to audit row
--   Prelude, Outcome, Json   what the parts share: tests and texts, errors as values, JSON values
--   Examples          concrete rows and requests, with the theorems applied to them
--
-- How the parts interact. A worker claims a queued row, which draws a random token, and each later
-- transaction of that worker (an event, a heartbeat, the mark before a tool call, a saved message, the
-- settling of a failure, the completion) locks the row and compares the token. Recovery and the
-- owner's requests change the row without a token. The tool executor calls the gate of Dispatch on the
-- row of its task, and the runtime calls _save_message.
--
-- Conventions. A transaction that holds the row lock is a function of the row: the database's locks
-- are taken to work. Times are instants in microseconds since 0001-01-01 UTC and identifiers and
-- tokens are numbers. Each reading of the clock is an argument, but one transaction's readings are one
-- argument where no test compares them. `uuid4()` is an argument; that a token is new is the premise
-- `Fresh`. `uniform(delay / 2, delay)` is the argument `jitter`. What Python prints for a list or a
-- dict, str.lower, URL parsing, time zones, the JSON Schema validator and the tools are arguments. A
-- number in JSON is its printed form. Where code works inside a text, the text is the list of its code
-- points. What comes in from the network is an argument: the lines of a stream and how they ended.
--
-- Fuel. Most loops run over lists and JSON values and need none. `decimal`, which prints a number, has
-- the number as fuel, and each round divides by ten. `search_days` counts the 370 rounds of the source's
-- own loop. The loop of split_spans has one round more than the clean text has characters, since each
-- round moves the start forward. The loop of latest_due_occurrence over the days has one round for each
-- microsecond of the three days before now, and one more, since each candidate lies after the last. The
-- loop of embed_texts has one round for each text. The retry loops count their attempts.
-- The loop of `pages` counts discovery_max_pages. A run of the graph takes one unit of fuel for each
-- node, and 2 * max_tool_rounds + 10 are enough.
--
-- Not modelled: the connections of MCP and the status it reports, plugins, settings, passwords and
-- sessions, queries that only list, the planning and prompts of the runtime, the start and the shutdown
-- of the job pool, the summaries of the memory, and the search in the index. A failure of the database
-- itself is not modelled, but for the audit of a cancelled tool call, which the code gives five seconds and
-- whose failure it only logs. A cancellation of `run` outside of its `try` block is not modelled.
pub mod Prelude
pub mod Outcome
pub mod Json
pub mod Task
pub mod Lease
pub mod Runner
pub mod Recovery
pub mod TaskRoutes
pub mod Dispatch
pub mod SaveMessage
pub mod Lifecycle
pub mod Approvals
pub mod McpSecurity
pub mod ToolArguments
pub mod ToolOutput
pub mod McpResult
pub mod ToolCall
pub mod ToolExecutor
pub mod Chunking
pub mod ModelGateway
pub mod AuthLimits
pub mod ContextBudget
pub mod JobPool
pub mod Schedules
pub mod ScheduleDispatch
pub mod Graph
pub mod AgentNodes
pub mod McpClient
pub mod Memory
pub mod TaskCreation
pub mod Examples
