-- ===== src/ContextBudget.antt =====
-- backend/app/agent/context_budget.py: the cut of a prompt's history and context to a number of
-- characters.
pub mod Limits
use agent_demo.Prelude.{
  ℕ, ◌+◌, ◌-◌, ◌/◌, String, Bool, true, false, List, [], ◌∷◌, ◌++◌, ltb, leb, ◌==◌, if◌then◌else◌,
  Option, or_else, is_some, ◌&&◌, cut, text_length, concat, length, reverse,
}
use agent_demo.Outcome.{Error, Result, ok, err, value_error, key_error}

abbrev pub truncated : String
truncated = "\n[Context truncated to fit the runtime budget.]"

-- An entry of the history; the content may be missing.
pub record HistoryItem : Type 0 where
  pub role : String
  pub content : Option String

pub record Usage : Type 0 where
  pub max_chars : ℕ
  pub input_chars : ℕ
  pub dropped_history_messages : ℕ
  pub omitted_context_chars : ℕ

pub record Fitted : Type 0 where
  pub kept_history : List HistoryItem
  pub kept_context : List String
  pub usage : Usage

-- `item.get("content", "")`
abbrev pub content_of : HistoryItem → String
content_of item = or_else item.content ""

unfoldable pub history_chars : List HistoryItem → ℕ
history_chars [] = 0
history_chars (item ∷ items) = text_length (content_of item) + history_chars items

unfoldable pub total_chars : List String → ℕ
total_chars [] = 0
total_chars (text ∷ texts) = text_length text + total_chars texts

-- The loop over the history, newest first, with `history_budget`.
unfoldable pub keep_window : ℕ → List HistoryItem → List HistoryItem
unfolding text_length
keep_window budget [] = []
keep_window budget (item ∷ items) =
    let rest = keep_window (budget - text_length (content_of item)) items in
    if ltb budget (text_length (content_of item)) then [] else item ∷ rest

-- The loop over the context, newest first: the texts kept and `kept_source_chars`.
unfoldable pub keep_texts : ℕ → List String → List String × ℕ
keep_texts remaining [] = ([], 0)
keep_texts remaining (text ∷ texts) =
    let (more, chars) = keep_texts (remaining - text_length text) texts in
    let skipped = keep_texts remaining texts in
    if leb (text_length text) remaining
    then if remaining - text_length text == 0
      then (text ∷ [], text_length text)
      else (text ∷ more, text_length text + chars)
    else if ltb (text_length truncated) remaining
    then (
      concat (cut (remaining - text_length truncated) text ∷ truncated ∷ []) ∷ [],
      remaining - text_length truncated,
    )
    else if remaining == 0
    then ([], 0)
    else skipped

abbrev pub is_empty {ℓ} : {A : Type ℓ} → List A → Bool
is_empty [] = true
is_empty (x ∷ xs) = false

-- `remaining // 2 if context else remaining`
abbrev pub history_budget : ℕ → List String → ℕ
history_budget remaining context = if is_empty context then remaining else remaining / 2

unfoldable pub fit : String → List HistoryItem → List String → ℕ → Fitted
fit prompt history context max_chars =
    let remaining = max_chars - text_length prompt in
    let kept = reverse (keep_window (history_budget remaining context) (reverse history)) in
    let (texts, chars) = keep_texts (remaining - history_chars kept) (reverse context) in
    record {
      kept_history = kept;
      kept_context = reverse texts;
      usage = record {
        max_chars = max_chars;
        input_chars = text_length prompt + history_chars kept + total_chars (reverse texts);
        dropped_history_messages = length history - length kept;
        omitted_context_chars = total_chars context - chars;
      };
    }

-- `item["content"]` raises where it is missing.
abbrev pub have_contents : List HistoryItem → Bool
have_contents [] = true
have_contents (item ∷ items) = is_some item.content && have_contents items

abbrev pub no_content : Error
no_content = key_error "'content'"

abbrev pub too_long : Error
too_long = value_error "Current message exceeds the runtime context budget"

unfoldable pub fit_context : String → List HistoryItem → List String → ℕ → Result Fitted
unfolding fit
fit_context prompt history context max_chars =
    if ltb max_chars (text_length prompt)
    then err too_long
    else let fitted = fit prompt history context max_chars in
      if have_contents fitted.kept_history then ok fitted else err no_content
