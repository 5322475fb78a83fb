-- ===== src/ModelGateway/Events.antt =====
-- backend/app/services/model_gateway.py: _sse_data, which reads server-sent events.
pub mod Printing
use agent_demo.Prelude.{
  ℕ, suc, ◌+◌, Bool, true, false, Option, none, some, List, [], ◌∷◌, ◌++◌, ◌==◌, ltb, if◌then◌else◌,
  length, drop, CodePoints, starts_with_text, same_text, join_lines,
}
use agent_demo.ModelGateway.{
  Failure, raised, Stream, closed, failed, yield, Attempt, max_sse_event_chars, response_error,
}

-- "data"
abbrev pub data_field : CodePoints
data_field = 100 ∷ 97 ∷ 116 ∷ 97 ∷ []

-- `text.removeprefix(" ")`
abbrev pub remove_space : CodePoints → CodePoints
remove_space [] = []
remove_space (c ∷ text) = if c == 32 then text else c ∷ text

-- The value of a data line; `none` is any other line.
unfoldable pub data_value : CodePoints → Option CodePoints
unfolding starts_with_text same_text
data_value line =
    if starts_with_text (data_field ++ 58 ∷ []) line
    then some (remove_space (drop 5 line))
    else if same_text line data_field
    then some []
    else none

abbrev pub too_large : Failure
too_large = raised (response_error "Model stream event exceeds the size limit")

-- `yield "\n".join(parts)`, if there are parts
abbrev pub dispatch_event :
    List CodePoints → Stream CodePoints → Stream CodePoints → Stream CodePoints
dispatch_event [] fresh kept = kept
dispatch_event (part ∷ parts) fresh kept = yield (join_lines (part ∷ parts)) fresh

abbrev pub end_of_lines : Option Failure → Stream CodePoints
end_of_lines none = closed
end_of_lines (some failure) = failed failure

abbrev pub add_part :
    ℕ → Option CodePoints → Stream CodePoints → Stream CodePoints → Stream CodePoints
add_part size none skipped added = skipped
add_part size (some value) skipped added =
    if ltb max_sse_event_chars (size + (length value + 1)) then failed too_large else added

abbrev pub with_value : List CodePoints → Option CodePoints → List CodePoints
with_value parts none = parts
with_value parts (some value) = parts ++ value ∷ []

abbrev pub with_size : ℕ → Option CodePoints → ℕ
with_size size none = size
with_size size (some value) = size + (length value + 1)

-- The loop over the lines, with `parts` and `size`.
unfoldable pub sse_from : List CodePoints → ℕ → List CodePoints → Option Failure → Stream CodePoints
unfolding data_value join_lines
sse_from parts size [] broken = end_of_lines broken
sse_from parts size ([] ∷ lines) broken =
    dispatch_event parts (sse_from [] 0 lines broken) (sse_from parts size lines broken)
sse_from parts size ((c ∷ line) ∷ lines) broken =
    let value = data_value (c ∷ line) in
    let skipped = sse_from parts size lines broken in
    let added = sse_from (with_value parts value) (with_size size value) lines broken in
    add_part size value skipped added

unfoldable pub sse_data : Attempt → Stream CodePoints
unfolding sse_from
sse_data response = sse_from [] 0 response.lines response.broken
