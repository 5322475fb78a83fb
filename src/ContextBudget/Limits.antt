-- ===== src/ContextBudget/Limits.antt =====
-- backend/app/agent/context_budget.py: what a fitted prompt keeps, and its size.
use mathlib.Core.List.{reverse-append, reverse-reverse, reverse-cons}
use agent_demo.Prelude.{
  ℕ, ◌+◌, ◌-◌, ◌≤◌, ◌<◌, ◌≡◌, inl, inr, refl, sym, ap, ◌∙◌, arith, String, Bool, true, List, [],
  ◌∷◌, ◌++◌, reverse, ltb, Bool-cases, length, length-append, cut, concat, text_length,
  text_length-cut, text_length-concat,
}
use mathlib.Core.Path.{subst}
use agent_demo.Outcome.{ok, err}
use agent_demo.ContextBudget.{
  HistoryItem, content_of, have_contents, no_content, Fitted, truncated, history_chars, total_chars,
  keep_window, keep_texts, history_budget, fit, fit_context, too_long,
}

history_chars-append :
    (xs ys : List HistoryItem) → history_chars (xs ++ ys) ≡ history_chars xs + history_chars ys
unfolding history_chars
history_chars-append [] ys = omega arith
history_chars-append (x ∷ xs) ys = omega (arith, history_chars-append xs ys)

history_chars-reverse : (xs : List HistoryItem) → history_chars (reverse xs) ≡ history_chars xs
unfolding history_chars
history_chars-reverse [] = refl
history_chars-reverse (x ∷ xs) =
    rw (reverse-cons x xs)
      (omega (arith, history_chars-append (reverse xs) (x ∷ []), history_chars-reverse xs))

total_chars-append :
    (xs ys : List String) → total_chars (xs ++ ys) ≡ total_chars xs + total_chars ys
unfolding total_chars
total_chars-append [] ys = omega arith
total_chars-append (x ∷ xs) ys = omega (arith, total_chars-append xs ys)

total_chars-reverse : (xs : List String) → total_chars (reverse xs) ≡ total_chars xs
unfolding total_chars
total_chars-reverse [] = refl
total_chars-reverse (x ∷ xs) =
    rw (reverse-cons x xs)
      (omega (arith, total_chars-append (reverse xs) (x ∷ []), total_chars-reverse xs))

length-reverse_lem : (xs : List HistoryItem) → length (reverse xs) ≡ length xs
length-reverse_lem [] = refl
length-reverse_lem (x ∷ xs) =
    rw (reverse-cons x xs)
      (omega (arith, length-append (reverse xs) (x ∷ []), length-reverse_lem xs))

-- What stands before a window is nothing, or its last item does not fit in the budget with it.
abbrev pub overflows : ℕ → List HistoryItem → List HistoryItem → Bool
overflows budget kept [] = true
overflows budget kept (item ∷ items) =
    ltb budget (history_chars kept + text_length (content_of item))

-- The window of a history, newest first.
record Window (budget : ℕ) (history kept : List HistoryItem) : Type 0 where
  pub older : List HistoryItem
  pub split : history ≡ kept ++ older
  pub fits : history_chars kept ≤ budget
  pub is_longest : overflows budget kept older ≡ true

later-overflows :
    (budget : ℕ) (item : HistoryItem) (kept older : List HistoryItem)
    → text_length (content_of item) ≤ budget
    → overflows (budget - text_length (content_of item)) kept older ≡ true
    → overflows budget (item ∷ kept) older ≡ true
unfolding history_chars
later-overflows budget item kept [] h o = refl
later-overflows budget item kept (x ∷ older) h o = ground arith

keep_window-Window :
    (budget : ℕ) (history : List HistoryItem) → Window budget history (keep_window budget history)
unfolding keep_window history_chars
keep_window-Window budget [] = record {
  older = [];
  split = refl;
  fits = omega arith;
  is_longest = refl;
}
keep_window-Window budget (item ∷ items) =
    elim (Bool-cases (ltb budget (text_length (content_of item)))) [
      | inl long ↦ rw long (record {
        older = item ∷ items;
        split = refl;
        fits = omega arith;
        is_longest = ground arith;
      })
      | inr short ↦
          let w = keep_window-Window (budget - text_length (content_of item)) items in
          rw short (record {
            older = w.older;
            split = ap (λ xs. item ∷ xs) w.split;
            fits = ground (arith, w.fits);
            is_longest = later-overflows budget item _ w.older (ground arith) w.is_longest;
          })
    ]

no_text : text_length "" ≡ 0
unfolding text_length
no_text = refl

cut_length :
    (remaining : ℕ) (text : String)
    → text_length truncated < remaining
    → text_length (concat (cut (remaining - text_length truncated) text ∷ truncated ∷ []))
      ≤ remaining
unfolding concat
cut_length remaining text h = omega (
  arith,
  text_length-concat (cut (remaining - text_length truncated) text) (truncated ∷ []),
  text_length-concat truncated [],
  text_length-cut (remaining - text_length truncated) text,
  no_text,
)

keep_texts_bound :
    (remaining : ℕ) (texts : List String)
    → (total_chars (keep_texts remaining texts).0 ≤ remaining)
      × ((keep_texts remaining texts).1 ≤ total_chars texts)
unfolding keep_texts total_chars
keep_texts_bound remaining [] = (omega arith, omega arith)
keep_texts_bound remaining (text ∷ texts) = ground (
  arith,
  keep_texts_bound (remaining - text_length text) texts,
  keep_texts_bound remaining texts,
  cut_length remaining text,
)

-- What a fitted prompt keeps of its history.
pub record KeepsRecent (budget : ℕ) (history : List HistoryItem) (fitted : Fitted) : Type 0 where
  pub older : List HistoryItem
  pub split : history ≡ older ++ fitted.kept_history
  pub dropped : fitted.usage.dropped_history_messages ≡ length older
  pub fits : history_chars fitted.kept_history ≤ budget
  pub is_longest : overflows budget fitted.kept_history (reverse older) ≡ true

overflows-reverse :
    (budget : ℕ) (kept older : List HistoryItem)
    → overflows budget kept older ≡ true
    → overflows budget (reverse kept) older ≡ true
overflows-reverse budget kept [] h = refl
overflows-reverse budget kept (item ∷ older) h = rw (history_chars-reverse kept) h

fit-KeepsRecent :
    (prompt : String) (history : List HistoryItem) (context : List String) (n : ℕ)
    → KeepsRecent
        (history_budget (n - text_length prompt) context)
        history
        (fit prompt history context n)
unfolding fit
fit-KeepsRecent prompt history context n =
    let budget = history_budget (n - text_length prompt) context in
    let kept = keep_window budget (reverse history) in
    let w = keep_window-Window budget (reverse history) in
    let parts : history ≡ reverse w.older ++ reverse kept =
      sym (reverse-reverse history) ∙ ap (λ xs. reverse xs) w.split ∙ reverse-append kept w.older in
    record {
      older = reverse w.older;
      split = parts;
      dropped = omega (
        arith,
        ap (λ (xs : List HistoryItem). length xs) parts,
        length-append (reverse w.older) (reverse kept),
      );
      fits = rw (history_chars-reverse kept) w.fits;
      is_longest =
          rw (reverse-reverse w.older) (overflows-reverse budget kept w.older w.is_longest);
    }

budget_bound :
    (remaining : ℕ) (context : List String) → history_budget remaining context ≤ remaining
budget_bound remaining context = ground arith

-- A prompt that fits its budget of characters is fitted where the history that is kept has contents, and the input that is sent, which is the
-- prompt with what is kept of history and context, stays inside the budget.
pub fit_context_bound :
    (prompt : String) (history : List HistoryItem) (context : List String) (n : ℕ)
    → text_length prompt ≤ n
    → have_contents (fit prompt history context n).kept_history ≡ true
    → (fitted : Fitted) × (fit_context prompt history context n ≡ ok fitted)
      × (fitted.usage.input_chars
          ≡ text_length prompt
            + history_chars fitted.kept_history
            + total_chars fitted.kept_context)
      × (fitted.usage.input_chars ≤ n)
unfolding fit_context fit
fit_context_bound prompt history context n h c =
    let kept =
      reverse (keep_window (history_budget (n - text_length prompt) context) (reverse history)) in
    let left = n - text_length prompt - history_chars kept in
    let k = (fit-KeepsRecent prompt history context n).fits in
    (
      fit prompt history context n,
      ground arith,
      refl,
      omega (
        arith,
        h,
        k,
        budget_bound (n - text_length prompt) context,
        total_chars-reverse (keep_texts left (reverse context)).0,
        (keep_texts_bound left (reverse context)).0,
      ),
    )

fitted_bare : {fitted : Fitted} → err no_content ≡ ok fitted → ⊥
fitted_bare h = cc

fitted_long : {fitted : Fitted} → err too_long ≡ ok fitted → ⊥
fitted_long h = cc

ok_injective : {a b : Fitted} → ok a ≡ ok b → a ≡ b
ok_injective h = cc

-- The history that a fitted prompt keeps is its most recent part, whole items in order: the longest
-- such part within the budget, which is all that the prompt leaves, or half of it if there is context.
pub fit_context-KeepsRecent :
    (prompt : String) (history : List HistoryItem) (context : List String) (n : ℕ) (fitted : Fitted)
    → fit_context prompt history context n ≡ ok fitted
    → KeepsRecent (history_budget (n - text_length prompt) context) history fitted
unfolding fit_context
fit_context-KeepsRecent prompt history context n fitted h =
    elim (Bool-cases (ltb n (text_length prompt))) [
      | inl long ↦ absurd (fitted_long (rw long at h))
      | inr short ↦ elim (Bool-cases (have_contents (fit prompt history context n).kept_history)) [
        | inr bare ↦ absurd (fitted_bare (rw (short, bare) at h))
        | inl full ↦
            subst (KeepsRecent (history_budget (n - text_length prompt) context) history)
              (ok_injective (rw (short, full) at h)) (fit-KeepsRecent prompt history context n)
      ]
    ]
