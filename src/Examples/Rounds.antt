-- ===== src/Examples/Rounds.antt =====
-- A chat with two rounds at most, whose planner always wants a tool.
use agent_demo.Prelude.{◌≡◌, refl, arith, ℕ, false, none, some, [], ◌∷◌}
use agent_demo.Graph.{
  chat, entry, next_node, ensure_conversation, load_context, save_user_message,
  preflight_confirmable_tool, retrieve_context, plan, execute_tool, generate_answer,
  save_assistant_message, update_memory_summary, route_after_preflight_confirmable_tool,
  route_after_plan, route_after_execute_tool,
}
use agent_demo.AgentNodes.{AgentState, Met, run_graph}
use agent_demo.AgentNodes.Pieces.{Finishes}
use agent_demo.AgentNodes.Rounds.{chat_run-Finishes}

abbrev start : AgentState
start = record {
  shown = record { planned = none; tool_calls = [] };
  tool_rounds = 0;
  max_tool_rounds = 2;
  confirmed = false;
}

abbrev meets : ℕ → Met
meets n = record {
  next_step = record { no_tool = false; requires_confirmation = false };
  early = none;
  calls_after = [];
}

two_rounds :
    run_graph 14 chat meets 0 (entry chat) start
    ≡ some (
        ensure_conversation ∷ load_context ∷ save_user_message ∷ preflight_confirmable_tool
        ∷ retrieve_context ∷ plan ∷ execute_tool ∷ plan ∷ execute_tool ∷ plan ∷ generate_answer
        ∷ save_assistant_message ∷ update_memory_summary ∷ [])
unfolding run_graph next_node route_after_preflight_confirmable_tool route_after_plan
    route_after_execute_tool
two_rounds = refl

chat_run-Finishes_example : Finishes 2 13 (run_graph 14 chat meets 0 (entry chat) start)
chat_run-Finishes_example = chat_run-Finishes 14 meets start refl refl (omega arith)
