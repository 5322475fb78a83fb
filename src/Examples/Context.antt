-- ===== src/Examples/Context.antt =====
-- A prompt whose old history does not fit.
use agent_demo.Prelude.{some, ◌-◌, refl, String, List, [], ◌∷◌, text_length}
use agent_demo.ContextBudget.{HistoryItem, history_budget, keep_window, fit, fit_context}
use agent_demo.ContextBudget.Limits.{KeepsRecent, fit_context-KeepsRecent}

abbrev history : List HistoryItem
history =
    record { role = "user"; content = some "Tell me everything about the library" }
    ∷ record { role = "assistant"; content = some "It has books" }
    ∷ []

abbrev context : List String
context = "A short note" ∷ []

fit_context-KeepsRecent_example :
    KeepsRecent
      (history_budget (60 - text_length "And the rest?") context)
      history
      (fit "And the rest?" history context 60)
unfolding fit_context text_length keep_window
fit_context-KeepsRecent_example =
    fit_context-KeepsRecent "And the rest?" history context 60
      (fit "And the rest?" history context 60) refl
