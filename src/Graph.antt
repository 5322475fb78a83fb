-- ===== src/Graph.antt =====
-- backend/app/agent/graph.py: the order of the agent's nodes in both modes. What a node does to the
-- state is not modelled here; a node's successor depends on the state after it.
pub mod Paths
use agent_demo.Prelude.{
  ℕ, String, Bool, true, false, not, ◌&&◌, Option, none, some, List, [], ◌∷◌, str_eq, if◌then◌else◌,
}

pub data Node : Type 0 where
  ensure_conversation load_context save_user_message preflight_confirmable_tool retrieve_context
        plan :
      Node
  execute_tool await_confirmation generate_answer save_assistant_message update_memory_summary
        finished :
      Node

pub data GraphMode : Type 0 where
  chat confirmed_tool : GraphMode

pub record Plan : Type 0 where
  pub no_tool : Bool
  pub requires_confirmation : Bool

-- `result` of a tool call, where it is a dict.
pub record CallResult : Type 0 where
  pub status : String
  pub error : Option String

-- An entry of `tool_calls`; `needs_confirmation` is `requires_confirmation is True`.
pub record MadeCall : Type 0 where
  pub needs_confirmation : Bool
  pub result : Option CallResult

pub record GraphState : Type 0 where
  pub planned : Option Plan
  pub tool_calls : List MadeCall

-- The keys of the conditional edges.
abbrev pub entry : GraphMode → Node
entry confirmed_tool = load_context
entry chat = ensure_conversation

route_of_plan : Option Plan → Node
route_of_plan none = generate_answer
route_of_plan (some p) = if p.no_tool then generate_answer else execute_tool

-- `_route_after_plan`
unfoldable pub route_after_plan : GraphState → Node
unfolding route_of_plan
route_after_plan state = route_of_plan state.planned

needs_tool : Option Plan → Bool
needs_tool none = false
needs_tool (some p) = not p.no_tool && p.requires_confirmation

-- `_route_after_preflight_confirmable_tool`
unfoldable pub route_after_preflight_confirmable_tool : GraphState → Node
unfolding needs_tool
route_after_preflight_confirmable_tool state =
    if needs_tool state.planned then execute_tool else retrieve_context

abbrev pub last_call : List MadeCall → Option MadeCall
last_call [] = none
last_call (c ∷ []) = some c
last_call (c ∷ d ∷ calls) = last_call (d ∷ calls)

abbrev pub is_error : Option String → String → Bool
is_error none message = false
is_error (some e) message = str_eq e message

abbrev pub refused_result : Option CallResult → Bool
refused_result none = false
refused_result (some r) =
    str_eq r.status "failed" && is_error r.error "Tool requires confirmation before execution"

-- The latest call was refused because it needs a confirmation.
abbrev pub awaits : Option MadeCall → Bool
awaits none = false
awaits (some call) = call.needs_confirmation && refused_result call.result

-- `_route_after_execute_tool`, with the edges that its two keys name: "plan" leads to `again`.
unfoldable pub route_after_execute_tool : Node → GraphState → Node
route_after_execute_tool again state =
    if awaits (last_call state.tool_calls) then await_confirmation else again

-- `build_agent_graph`: the node after `node`, in the state that it leaves.
unfoldable pub next_node : GraphMode → Node → GraphState → Node
next_node mode generate_answer state = save_assistant_message
next_node mode save_assistant_message state = update_memory_summary
next_node mode update_memory_summary state = finished
next_node mode await_confirmation state = finished
next_node mode finished state = finished
next_node confirmed_tool load_context state = plan
next_node confirmed_tool plan state = execute_tool
next_node confirmed_tool execute_tool state = route_after_execute_tool generate_answer state
next_node confirmed_tool ensure_conversation state = finished
next_node confirmed_tool save_user_message state = finished
next_node confirmed_tool preflight_confirmable_tool state = finished
next_node confirmed_tool retrieve_context state = finished
next_node chat ensure_conversation state = load_context
next_node chat load_context state = save_user_message
next_node chat save_user_message state = preflight_confirmable_tool
next_node chat preflight_confirmable_tool state = route_after_preflight_confirmable_tool state
next_node chat retrieve_context state = plan
next_node chat plan state = route_after_plan state
next_node chat execute_tool state = route_after_execute_tool plan state
