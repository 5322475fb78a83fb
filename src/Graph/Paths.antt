-- ===== src/Graph/Paths.antt =====
-- backend/app/agent/graph.py: the paths through the graph of a confirmed tool call.
use agent_demo.Prelude.{ℕ, suc, zero, ◌≡◌, inl, inr, refl, List, [], ◌∷◌, Bool-cases, if◌then◌else◌}
use agent_demo.Graph.{
  Node, load_context, plan, execute_tool, await_confirmation, generate_answer,
  save_assistant_message, update_memory_summary, finished, GraphMode, confirmed_tool, entry,
  GraphState, awaits, last_call, next_node, route_after_execute_tool,
}

-- The nodes that a run visits; `states n` is the state after its n-th node from the end.
unfoldable pub visits : GraphMode → (ℕ → GraphState) → ℕ → Node → List Node
visits mode states zero node = []
visits mode states (suc n) node = node ∷ visits mode states n (next_node mode node (states n))

-- A run of a confirmed tool loads the context, plans, and executes the tool once. Then it awaits
-- another confirmation if the call was refused for want of one, or it answers, saves the answer and
-- updates the memory; and then it is finished.
pub confirmed_run :
    (states : ℕ → GraphState)
    → visits confirmed_tool states 7 (entry confirmed_tool)
      ≡ load_context
        ∷ plan
        ∷ execute_tool
        ∷ (if awaits (last_call (states 4).tool_calls)
            then await_confirmation ∷ finished ∷ finished ∷ finished ∷ []
            else generate_answer ∷ save_assistant_message ∷ update_memory_summary ∷ finished ∷ [])
unfolding visits next_node route_after_execute_tool
confirmed_run states = elim (Bool-cases (awaits (last_call (states 4).tool_calls))) [
  | inl e ↦ rw e refl
  | inr e ↦ rw e refl
]
