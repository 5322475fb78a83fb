-- ===== src/Runner/Outcomes.antt =====
-- When a run counts as completed, from the events of its stream.
use agent_demo.Prelude.{
  ◌≡◌, refl, String, Bool, true, false, not, ◌&&◌, ◌||◌, is_some, is_none, List, [], ◌∷◌, arith,
  str_eq, eq_iff,
}
use agent_demo.Json.{Json, Fields, get, str_or}
use agent_demo.Runner.Events.{
  Observed, nothing_observed, observe, observe_all, run_failure, has_failure, is_text,
  confirmation_required_error,
}

-- An event that ends the run in failure: an error, or a tool that waits for confirmation.
abbrev pub is_failing : String → Fields → Bool
is_failing event_type event =
    str_eq event_type "error"
    || str_eq event_type "tool_result" && is_text confirmation_required_error (get "error" event)

abbrev pub any_failing : List (String × Fields) → Bool
any_failing [] = false
any_failing ((event_type, event) ∷ events) = is_failing event_type event || any_failing events

abbrev pub any_done : List (String × Fields) → Bool
any_done [] = false
any_done ((event_type, event) ∷ events) = str_eq event_type "done" || any_done events

-- Every error event carries a text.
abbrev pub errors_speak : (Json → String) → List (String × Fields) → Bool
errors_speak container [] = true
errors_speak container ((event_type, event) ∷ events) =
    not (
      str_eq event_type "error"
      && str_eq (str_or container (get "message" event) "Background agent task failed") "")
    && errors_speak container events

-- One text is not another.
apart : (s a b : String) → str_eq a b ≡ false → str_eq s a ≡ true → str_eq s b ≡ false
apart s a b h e = rw ((eq_iff s a).0 e) h

module _ (container : Json → String) (event_type : String) (event : Fields) (seen : Observed) where
  observe_done :
      is_some (observe container event_type event seen).done_payload
      ≡ (is_some seen.done_payload || str_eq event_type "done")
  unfolding observe
  observe_done = ground (arith, apart event_type "token" "done" refl)

  observe_failure :
      (str_eq event_type "error"
          && str_eq (str_or container (get "message" event) "Background agent task failed") "")
        ≡ false
      → has_failure (observe container event_type event seen).failure
        ≡ (has_failure seen.failure || is_failing event_type event)
  unfolding observe
  observe_failure h = ground (
    arith,
    apart event_type "token" "error" refl,
    apart event_type "token" "tool_result" refl,
    apart event_type "done" "error" refl,
    apart event_type "done" "tool_result" refl,
  )

observe_all_done :
    (container : Json → String) (events : List (String × Fields)) (seen : Observed)
    → is_some (observe_all container events seen).done_payload
      ≡ (is_some seen.done_payload || any_done events)
unfolding observe_all
observe_all_done container [] seen = ground arith
observe_all_done container ((event_type, event) ∷ events) seen = ground (
  arith,
  observe_all_done container events (observe container event_type event seen),
  observe_done container event_type event seen,
)

observe_all_failure :
    (container : Json → String) (events : List (String × Fields)) (seen : Observed)
    → errors_speak container events ≡ true
    → has_failure (observe_all container events seen).failure
      ≡ (has_failure seen.failure || any_failing events)
unfolding observe_all
observe_all_failure container [] seen h = ground arith
observe_all_failure container ((event_type, event) ∷ events) seen h = ground (
  arith,
  observe_all_failure container events (observe container event_type event seen),
  observe_failure container event_type event seen,
)

-- Where every error event carries a text, the run counts as completed exactly when its stream held
-- a completion event, no error, and no tool result that waits for confirmation.
pub run_completes_iff :
    (container : Json → String) (events : List (String × Fields))
    → errors_speak container events ≡ true
    → is_none (run_failure (observe_all container events nothing_observed))
      ≡ (any_done events && not (any_failing events))
unfolding run_failure
run_completes_iff container events h = ground (
  arith,
  observe_all_done container events nothing_observed,
  observe_all_failure container events nothing_observed,
)
