-- ===== src/AgentNodes.antt =====
-- backend/app/agent/nodes.py: what the nodes of the agent do to the state that its graph branches on.
-- What the planner and the tool executor give at a node is an argument.
pub mod Pieces
pub mod Rounds
use agent_demo.Prelude.{
  ℕ, zero, suc, ◌+◌, Bool, true, false, Option, none, some, List, [], ◌∷◌, leb, if◌then◌else◌,
}
use agent_demo.Graph.{
  Node, ensure_conversation, load_context, save_user_message, preflight_confirmable_tool,
  retrieve_context, plan, execute_tool, await_confirmation, generate_answer, save_assistant_message,
  update_memory_summary, finished, GraphMode, Plan, MadeCall, GraphState, next_node,
}

-- `confirmed` is whether there is a `confirmed_tool_name`.
pub record AgentState : Type 0 where
  pub shown : GraphState
  pub tool_rounds : ℕ
  pub max_tool_rounds : ℕ
  pub confirmed : Bool

-- What a node meets: the plan of _plan_next_step, the one of _plan_early_confirmable_tool, and the tool
-- calls after _maybe_execute_tool.
pub record Met : Type 0 where
  pub next_step : Plan
  pub early : Option Plan
  pub calls_after : List MadeCall

abbrev pub with_plan : Plan → AgentState → AgentState
with_plan planned state = record state {
  shown = record { planned = some planned; tool_calls = state.shown.tool_calls };
}

-- The plan of a confirmed tool, and the one at the limit of the rounds.
abbrev pub confirmed_plan : Plan
confirmed_plan = record { no_tool = false; requires_confirmation = false }

abbrev pub stop_plan : Plan
stop_plan = record { no_tool = true; requires_confirmation = false }

unfoldable pub plan_node : Met → AgentState → AgentState
plan_node met state =
    if state.confirmed
    then with_plan confirmed_plan state
    else if leb state.max_tool_rounds state.tool_rounds
    then with_plan stop_plan state
    else with_plan met.next_step state

abbrev pub preflight_with : Option Plan → AgentState → AgentState
preflight_with none state = state
preflight_with (some early) state = with_plan early state

-- A visit of execute_tool is a round, in which the runtime may call several tools, as when it fetches
-- the results of a web search.
unfoldable pub execute_tool_node : Met → AgentState → AgentState
execute_tool_node met state = record state {
  shown = record { planned = state.shown.planned; tool_calls = met.calls_after };
  tool_rounds = state.tool_rounds + 1;
}

-- The state after a node; the other nodes keep what the graph branches on.
unfoldable pub run_node : Node → Met → AgentState → AgentState
unfolding plan_node execute_tool_node
run_node plan met state = plan_node met state
run_node execute_tool met state = execute_tool_node met state
run_node preflight_confirmable_tool met state = preflight_with met.early state
run_node ensure_conversation met state = state
run_node load_context met state = state
run_node save_user_message met state = state
run_node retrieve_context met state = state
run_node await_confirmation met state = state
run_node generate_answer met state = state
run_node save_assistant_message met state = state
run_node update_memory_summary met state = state
run_node finished met state = state

abbrev pub is_finished : Node → Bool
is_finished finished = true
is_finished _ = false

abbrev pub visit : Node → Option (List Node) → Option (List Node)
visit node none = none
visit node (some nodes) = some (node ∷ nodes)

-- The nodes that a run of the graph visits, where `meets n` is what its n-th node meets; a node takes
-- one unit of fuel, and `none` is a run that has not finished.
unfoldable pub run_graph : ℕ → GraphMode → (ℕ → Met) → ℕ → Node → AgentState → Option (List Node)
unfolding run_node next_node
run_graph zero mode meets n node state = none
run_graph (suc fuel) mode meets n node state =
    let after = run_node node (meets n) state in
    let rest = run_graph fuel mode meets (suc n) (next_node mode node after.shown) after in
    if is_finished node then some [] else visit node rest
