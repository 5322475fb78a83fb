-- ===== src/AgentNodes/Pieces.antt =====
-- backend/app/agent/nodes.py and backend/app/agent/graph.py: the pieces of a run.
use agent_demo.Prelude.{
  ℕ, zero, suc, ◌+◌, ◌≤◌, ◌≡◌, refl, ap, arith, inl, inr, ◌⊎◌, true, false, Option, some, List, [],
  ◌∷◌, length, leb, Bool-cases,
}
use agent_demo.Graph.{
  Node, execute_tool, await_confirmation, generate_answer, save_assistant_message,
  update_memory_summary, GraphMode, GraphState, next_node, route_after_plan,
}
use agent_demo.AgentNodes.{AgentState, Met, plan_node, visit, run_graph}

abbrev pub is_execution : Node → ℕ
is_execution execute_tool = 1
is_execution _ = 0

-- How often a run visits execute_tool. One visit may fetch several results of a web search.
abbrev pub executions : List Node → ℕ
executions [] = 0
executions (node ∷ nodes) = is_execution node + executions nodes

-- A run that finishes, with bounds on its visits of execute_tool and of all nodes.
pub record Finishes (tools nodes : ℕ) (run : Option (List Node)) : Type 0 where
  pub visited : List Node
  pub ends : run ≡ some visited
  pub few_executions : executions visited ≤ tools
  pub few_nodes : length visited ≤ nodes

pub answers :
    (fuel : ℕ) (mode : GraphMode) (meets : ℕ → Met) (n : ℕ) (state : AgentState)
    → 4 ≤ fuel
    → Finishes 0 3 (run_graph fuel mode meets n generate_answer state)
unfolding run_graph next_node
answers (suc (suc (suc (suc fuel)))) mode meets n state h = record {
  visited = generate_answer ∷ save_assistant_message ∷ update_memory_summary ∷ [];
  ends = refl;
  few_executions = omega arith;
  few_nodes = omega arith;
}
answers zero mode meets n state h = absurd (omega arith)
answers (suc zero) mode meets n state h = absurd (omega arith)
answers (suc (suc zero)) mode meets n state h = absurd (omega arith)
answers (suc (suc (suc zero))) mode meets n state h = absurd (omega arith)

pub visited-then :
    (node : Node) (tools nodes : ℕ) (run : Option (List Node))
    → Finishes tools nodes run
    → Finishes (is_execution node + tools) (suc nodes) (visit node run)
visited-then node tools nodes run f = record {
  visited = node ∷ f.visited;
  ends = ap (λ r. visit node r) f.ends;
  few_executions = omega (arith, f.few_executions);
  few_nodes = omega (arith, f.few_nodes);
}

pub after_plan :
    (state : AgentState) (met : Met)
    → leb state.max_tool_rounds state.tool_rounds ≡ true
    → state.confirmed ≡ false
    → route_after_plan (plan_node met state).shown ≡ generate_answer
unfolding plan_node route_after_plan
after_plan state met h c = simp (c, h)

pub weaken :
    {tools nodes : ℕ} {run : Option (List Node)} (more_tools more_nodes : ℕ)
    → tools ≤ more_tools
    → nodes ≤ more_nodes
    → Finishes tools nodes run
    → Finishes more_tools more_nodes run
weaken more_tools more_nodes h k f = record {
  visited = f.visited;
  ends = f.ends;
  few_executions = omega (arith, f.few_executions);
  few_nodes = omega (arith, f.few_nodes);
}

-- What the plan node keeps.
pub record Kept (before after : AgentState) : Type 0 where
  pub rounds : after.tool_rounds ≡ before.tool_rounds
  pub limit : after.max_tool_rounds ≡ before.max_tool_rounds
  pub unconfirmed : after.confirmed ≡ before.confirmed

pub plan_node-Kept : (met : Met) (state : AgentState) → Kept state (plan_node met state)
unfolding plan_node
plan_node-Kept met state = elim (Bool-cases state.confirmed) [
  | inl e ↦ rw e (record { rounds = refl; limit = refl; unconfirmed = refl })
  | inr e ↦ elim (Bool-cases (leb state.max_tool_rounds state.tool_rounds)) [
    | inl f ↦ rw (e, f) (record { rounds = refl; limit = refl; unconfirmed = refl })
    | inr f ↦ rw (e, f) (record { rounds = refl; limit = refl; unconfirmed = refl })
  ]
]

pub plan_routes :
    (state : GraphState)
    → (route_after_plan state ≡ generate_answer) ⊎ (route_after_plan state ≡ execute_tool)
unfolding route_after_plan
plan_routes state = ground arith

pub waits :
    (fuel : ℕ) (mode : GraphMode) (meets : ℕ → Met) (n : ℕ) (state : AgentState)
    → 2 ≤ fuel
    → Finishes 0 1 (run_graph fuel mode meets n await_confirmation state)
unfolding run_graph next_node
waits (suc (suc fuel)) mode meets n state h = record {
  visited = await_confirmation ∷ [];
  ends = refl;
  few_executions = omega arith;
  few_nodes = omega arith;
}
waits zero mode meets n state h = absurd (omega arith)
waits (suc zero) mode meets n state h = absurd (omega arith)
