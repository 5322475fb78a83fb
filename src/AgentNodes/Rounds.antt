-- ===== src/AgentNodes/Rounds.antt =====
-- backend/app/agent/nodes.py and backend/app/agent/graph.py: how often a run visits execute_tool, and that
-- it ends.
use mathlib.Core.Path.{subst}
use agent_demo.Prelude.{
  ℕ, zero, suc, ◌+◌, ◌-◌, ◌*◌, ◌≤◌, ◌≡◌, max, refl, sym, ◌∙◌, arith, inl, inr, ◌⊎◌, false,
  Bool-cases, Option-cases,
}
use agent_demo.Graph.{
  Node, ensure_conversation, load_context, save_user_message, preflight_confirmable_tool,
  retrieve_context, plan, execute_tool, await_confirmation, generate_answer, chat, GraphState,
  next_node, entry, awaits, last_call, route_after_plan, route_after_execute_tool,
  route_after_preflight_confirmable_tool,
}
use agent_demo.AgentNodes.{AgentState, Met, plan_node, execute_tool_node, run_node, run_graph}
use agent_demo.AgentNodes.Pieces.{
  Finishes, answers, visited-then, after_plan, weaken, Kept, plan_node-Kept, plan_routes, waits,
}

-- A visit of execute_tool in the chat graph, with what a run from the plan node does after it.
from_execute :
    (k fuel : ℕ) (meets : ℕ → Met) (n : ℕ) (state : AgentState)
    → 2 ≤ fuel
    → Finishes k
        (2 * k + 4)
        (run_graph fuel chat meets (suc n) plan (execute_tool_node (meets n) state))
    → Finishes (suc k) (2 * k + 5) (run_graph (suc fuel) chat meets n execute_tool state)
unfolding run_graph next_node run_node route_after_execute_tool
from_execute k fuel meets n state h planned =
    let after = execute_tool_node (meets n) state in
    elim (Bool-cases (awaits (last_call after.shown.tool_calls))) [
      | inl e ↦ rw e (
          weaken (suc k) (2 * k + 5) (omega arith) (omega arith) (
            visited-then execute_tool 0 1
              (run_graph fuel chat meets (suc n) await_confirmation after)
              (waits fuel chat meets (suc n) after h)))
      | inr e ↦ rw e (
          weaken (suc k) (2 * k + 5) (omega arith) (omega arith) (
            visited-then execute_tool k (2 * k + 4) (run_graph fuel chat meets (suc n) plan after)
              planned))
    ]

plan_then :
    (fuel tools nodes : ℕ) (meets : ℕ → Met) (n : ℕ) (state : AgentState) (node : Node)
    → route_after_plan (plan_node (meets n) state).shown ≡ node
    → Finishes tools nodes (run_graph fuel chat meets (suc n) node (plan_node (meets n) state))
    → Finishes tools (suc nodes) (run_graph (suc fuel) chat meets n plan state)
unfolding run_graph next_node run_node
plan_then fuel tools nodes meets n state node e f =
    weaken tools (suc nodes) (omega arith) (omega arith) (
      visited-then plan tools nodes _ (
        subst
          (λ (next : Node).
            Finishes tools nodes
              (run_graph fuel chat meets (suc n) next (plan_node (meets n) state)))
          (sym e) f))

-- A run from the plan node, where `k` more rounds are allowed.
from_plan :
    (k fuel : ℕ) (meets : ℕ → Met) (n : ℕ) (state : AgentState)
    → state.confirmed ≡ false
    → state.max_tool_rounds ≤ state.tool_rounds + k
    → 2 * k + 5 ≤ fuel
    → Finishes k (2 * k + 4) (run_graph fuel chat meets n plan state)
unfolding execute_tool_node
from_plan k zero meets n state c h l = absurd (omega arith)
from_plan zero (suc fuel) meets n state c h l =
    plan_then fuel 0 3 meets n state generate_answer
      (after_plan state (meets n) (ground (arith, h)) c)
      (answers fuel chat meets (suc n) (plan_node (meets n) state) (omega arith))
from_plan (suc k) (suc zero) meets n state c h l = absurd (omega arith)
from_plan (suc k) (suc (suc fuel)) meets n state c h l =
    let after = plan_node (meets n) state in
    let kept = plan_node-Kept (meets n) state in
    elim (plan_routes after.shown) [
      | inl e ↦ weaken (suc k) (2 * suc k + 4) (omega arith) (omega arith) (
          plan_then (suc fuel) 0 3 meets n state generate_answer e
            (answers (suc fuel) chat meets (suc n) after (omega arith)))
      | inr e ↦ weaken (suc k) (2 * suc k + 4) (omega arith) (omega arith) (
          plan_then (suc fuel) (suc k) (2 * k + 5) meets n state execute_tool e (
            from_execute k fuel meets (suc n) after (omega arith) (
              from_plan k fuel meets (suc (suc n)) (execute_tool_node (meets (suc n)) after)
                (kept.unconfirmed ∙ c) (omega (arith, kept.rounds, kept.limit)) (omega arith))))
    ]

preflight-Kept :
    (met : Met) (state : AgentState) → Kept state (run_node preflight_confirmable_tool met state)
unfolding run_node
preflight-Kept met state = elim (Option-cases met.early) [
  | inl e ↦ rw e (record { rounds = refl; limit = refl; unconfirmed = refl })
  | inr (early, e) ↦ rw e (record { rounds = refl; limit = refl; unconfirmed = refl })
]

preflight_routes :
    (state : GraphState)
    → (route_after_preflight_confirmable_tool state ≡ execute_tool)
      ⊎ (route_after_preflight_confirmable_tool state ≡ retrieve_context)
unfolding route_after_preflight_confirmable_tool
preflight_routes state = ground arith

preflight_then :
    (fuel tools nodes : ℕ) (meets : ℕ → Met) (n : ℕ) (state : AgentState) (node : Node)
    → route_after_preflight_confirmable_tool
        (run_node preflight_confirmable_tool (meets n) state).shown
      ≡ node
    → Finishes tools nodes (
        run_graph fuel chat meets
          (suc n)
          node
          (run_node preflight_confirmable_tool (meets n) state))
    → Finishes tools
        (suc nodes)
        (run_graph (suc fuel) chat meets n preflight_confirmable_tool state)
unfolding run_graph next_node
preflight_then fuel tools nodes meets n state node e f =
    weaken tools (suc nodes) (omega arith) (omega arith) (
      visited-then preflight_confirmable_tool tools nodes _ (
        subst
          (λ (next : Node). Finishes tools nodes (
            run_graph fuel chat meets (suc n) next
              (run_node preflight_confirmable_tool (meets n) state)))
          (sym e) f))

retrieve_then :
    (fuel tools nodes : ℕ) (meets : ℕ → Met) (n : ℕ) (state : AgentState)
    → Finishes tools nodes (run_graph fuel chat meets (suc n) plan state)
    → Finishes tools (suc nodes) (run_graph (suc fuel) chat meets n retrieve_context state)
unfolding run_graph next_node run_node
retrieve_then fuel tools nodes meets n state f =
    weaken tools (suc nodes) (omega arith) (omega arith)
      (visited-then retrieve_context tools nodes _ f)

-- The end of the chat graph's preparation: the tool that is found early runs at once, or the plan comes
-- after the retrieval.
from_preflight :
    (fuel : ℕ) (meets : ℕ → Met) (n : ℕ) (state : AgentState)
    → state.confirmed ≡ false
    → state.tool_rounds ≡ 0
    → 2 * state.max_tool_rounds + 7 ≤ fuel
    → Finishes
        (max 1 state.max_tool_rounds)
        (2 * state.max_tool_rounds + 6)
        (run_graph fuel chat meets n preflight_confirmable_tool state)
unfolding execute_tool_node
from_preflight zero meets n state c z l = absurd (omega arith)
from_preflight (suc zero) meets n state c z l = absurd (omega arith)
from_preflight (suc (suc fuel)) meets n state c z l =
    let after = run_node preflight_confirmable_tool (meets n) state in
    let kept = preflight-Kept (meets n) state in
    elim (preflight_routes after.shown) [
      | inl e ↦
          let k = state.max_tool_rounds - 1 in
          weaken (max 1 state.max_tool_rounds) (2 * state.max_tool_rounds + 6) (omega arith)
            (omega arith)
            (preflight_then (suc fuel) (suc k) (2 * k + 5) meets n state execute_tool e (
              from_execute k fuel meets (suc n) after (omega arith) (
                from_plan k fuel meets (suc (suc n)) (execute_tool_node (meets (suc n)) after)
                  (kept.unconfirmed ∙ c) (omega (arith, kept.rounds, kept.limit)) (omega arith))))
      | inr e ↦
          let m = state.max_tool_rounds in
          weaken (max 1 m) (2 * m + 6) (omega arith) (omega arith) (
            preflight_then (suc fuel) m (suc (2 * m + 4)) meets n state retrieve_context e (
              retrieve_then fuel m (2 * m + 4) meets (suc n) after (
                from_plan m fuel meets (suc (suc n)) after (kept.unconfirmed ∙ c)
                  (omega (arith, kept.rounds, kept.limit)) (omega arith))))
    ]

-- A chat run that starts with no confirmed tool and no round counted ends, given two units of fuel for
-- each allowed round and ten more, whatever the planner plans and the tools return: it visits the node execute_tool at
-- most `max_tool_rounds` times, or once for a tool that was planned early where that limit is 0, and in
-- all it visits at most twice as many nodes as that limit and nine more.
pub chat_run-Finishes :
    (fuel : ℕ) (meets : ℕ → Met) (state : AgentState)
    → state.confirmed ≡ false
    → state.tool_rounds ≡ 0
    → 2 * state.max_tool_rounds + 10 ≤ fuel
    → Finishes
        (max 1 state.max_tool_rounds)
        (2 * state.max_tool_rounds + 9)
        (run_graph fuel chat meets 0 (entry chat) state)
unfolding run_graph next_node run_node
chat_run-Finishes zero meets state c z l = absurd (omega arith)
chat_run-Finishes (suc zero) meets state c z l = absurd (omega arith)
chat_run-Finishes (suc (suc zero)) meets state c z l = absurd (omega arith)
chat_run-Finishes (suc (suc (suc fuel))) meets state c z l =
    let m = state.max_tool_rounds in
    weaken (max 1 m) (2 * m + 9) (omega arith) (omega arith) (
      visited-then ensure_conversation _ _ _ (
        visited-then load_context _ _ _ (
          visited-then save_user_message _ _ _
            (from_preflight fuel meets 3 state c z (omega arith)))))
