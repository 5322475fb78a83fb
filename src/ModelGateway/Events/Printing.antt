-- ===== src/ModelGateway/Events/Printing.antt =====
-- backend/app/services/model_gateway.py: the events that _sse_data reads back from their printed form.
use mathlib.Core.List.{append_assoc, append-nil}
use agent_demo.Prelude.{
  ℕ, ◌+◌, ◌≤◌, ◌≡◌, sym, ap, ◌∙◌, arith, none, List, [], ◌∷◌, ◌++◌, map, ltb, false, length,
  CodePoints, join_lines,
}
use agent_demo.ModelGateway.{Stream, closed, yield, max_sse_event_chars}
use agent_demo.ModelGateway.Events.{data_field, sse_from, sse_data}

-- "data: " and the value
abbrev pub data_line : CodePoints → CodePoints
data_line value = data_field ++ 58 ∷ 32 ∷ value

-- An event is its data lines.
abbrev print_event : List CodePoints → List CodePoints
print_event values = map data_line values ++ [] ∷ []

abbrev pub print_events : List (List CodePoints) → List CodePoints
print_events [] = []
print_events (event ∷ events) = print_event event ++ print_events events

-- The size of an event as the code counts it.
abbrev event_size : List CodePoints → ℕ
event_size [] = 0
event_size (value ∷ values) = length value + 1 + event_size values

abbrev pub IsEvent : List CodePoints → Type 0
IsEvent [] = ⊥
IsEvent (value ∷ values) = event_size (value ∷ values) ≤ max_sse_event_chars

abbrev pub AreEvents : List (List CodePoints) → Type 0
AreEvents [] = Unit
AreEvents (event ∷ events) = IsEvent event × AreEvents events

abbrev pub yields : List (List CodePoints) → Stream CodePoints → Stream CodePoints
yields [] rest = rest
yields (event ∷ events) rest = yield (join_lines event) (yields events rest)

same_state :
    (lines : List CodePoints) {p q : List CodePoints} {m n : ℕ}
    → p ≡ q
    → m ≡ n
    → sse_from p m lines none ≡ sse_from q n lines none
same_state lines {p} {q} {m} {n} e h =
    ap (λ parts. sse_from parts m lines none) e ∙ ap (λ size. sse_from q size lines none) h

not_above : (a b : ℕ) → b ≤ a → ltb a b ≡ false
not_above a b h = ground arith

-- The data lines of an event are read into `parts` and `size`.
read_values :
    (values parts : List CodePoints) (size : ℕ) (lines : List CodePoints)
    → size + event_size values ≤ max_sse_event_chars
    → sse_from parts size (map data_line values ++ lines) none
      ≡ sse_from (parts ++ values) (size + event_size values) lines none
unfolding sse_from
read_values [] parts size lines h = same_state lines (sym (append-nil parts)) (omega arith)
read_values (value ∷ values) parts size lines h =
    rw (not_above max_sse_event_chars (size + (length value + 1)) (omega arith)) (
      read_values values (parts ++ value ∷ []) (size + (length value + 1)) lines (omega arith)
      ∙ same_state lines (append_assoc parts (value ∷ []) values) (omega arith))

read_event :
    (event lines : List CodePoints)
    → IsEvent event
    → sse_from [] 0 (print_event event ++ lines) none
      ≡ yield (join_lines event) (sse_from [] 0 lines none)
unfolding sse_from
read_event [] lines h = absurd h
read_event (value ∷ values) lines h =
    ap (λ all. sse_from [] 0 all none)
      (append_assoc (map data_line (value ∷ values)) ([] ∷ []) lines)
    ∙ read_values (value ∷ values) [] 0 ([] ∷ lines) (omega (arith, h))

read_unfinished :
    (values : List CodePoints)
    → event_size values ≤ max_sse_event_chars
    → sse_from [] 0 (map data_line values) none ≡ closed
unfolding sse_from
read_unfinished values h =
    ap (λ all. sse_from [] 0 all none) (sym (append-nil (map data_line values)))
    ∙ read_values values [] 0 [] (omega arith)

-- Events within the size limit, printed as data lines with a blank line behind each, are read back as
-- they were, each with its lines joined; data lines that no blank line follows are dropped.
pub sse_data-print_events :
    (events : List (List CodePoints)) (unfinished : List CodePoints)
    → AreEvents events
    → event_size unfinished ≤ max_sse_event_chars
    → sse_data (record { lines = print_events events ++ map data_line unfinished; broken = none })
      ≡ yields events closed
unfolding sse_data
sse_data-print_events [] unfinished h k = read_unfinished unfinished k
sse_data-print_events (event ∷ events) unfinished h k =
    ap (λ all. sse_from [] 0 all none)
      (append_assoc (print_event event) (print_events events) (map data_line unfinished))
    ∙ read_event event (print_events events ++ map data_line unfinished) h.0
    ∙ ap (λ rest. yield (join_lines event) rest) (sse_data-print_events events unfinished h.1 k)
