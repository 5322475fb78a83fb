-- ===== src/ToolOutput.antt =====
-- backend/app/services/tool_executor.py, `_limit_output`: the cut of a tool's output to a budget of
-- characters.
pub mod Bounds
use agent_demo.Prelude.{
  ℕ, suc, ◌+◌, ◌-◌, ◌≤◌, min, String, Bool, true, false, not, ◌&&◌, ◌||◌, Option, none, some, ltb,
  ◌==◌, if◌then◌else◌, str_eq, text_length, cut,
}
use agent_demo.Json.{
  Json, null, bool, number, text, arr, obj, Items, nil, cons, Fields, end, field, get,
}

-- The closure's two variables. `remaining` stops at 0 here, where Python's goes below: every test on
-- it compares it with a positive number, and the slice takes `max(0, remaining)`.
pub record Budget : Type 0 where
  pub remaining : ℕ
  pub truncated : Bool

abbrev pub spend : ℕ → Budget → Budget
spend n b = record b { remaining = b.remaining - n }

abbrev pub mark : Budget → Budget
mark b = record b { truncated = true }

-- `value[:max(0, remaining)]` and what it leaves of the budget.
unfoldable pub bounded_text : String → Budget → Json × Budget
bounded_text s b =
    let kept = cut b.remaining s in
    (
      text kept,
      record {
        remaining = b.remaining - text_length kept;
        truncated = b.truncated || ltb (text_length kept) (text_length s);
      },
    )

-- `str(value)` of a value that is no text, dict or list.
abbrev pub scalar_length : Json → ℕ
scalar_length null = 4
scalar_length (bool true) = 4
scalar_length (bool false) = 5
scalar_length (number n) = text_length n
scalar_length (text s) = 0
scalar_length (arr xs) = 0
scalar_length (obj fs) = 0

-- `remaining < 16`
abbrev pub spent_out : Budget → Bool
spent_out b = ltb b.remaining 16

-- The nested function `bounded`.
unfoldable mutual
  unfolding bounded_text

  pub bounded : Json → ℕ → Budget → Json × Budget
  bounded null depth b =
      if spent_out b || ltb 16 depth
      then (null, mark b)
      else (null, spend (4 + scalar_length null) b)
  bounded (bool v) depth b =
      if spent_out b || ltb 16 depth
      then (null, mark b)
      else (bool v, spend (4 + scalar_length (bool v)) b)
  bounded (number n) depth b =
      if spent_out b || ltb 16 depth
      then (null, mark b)
      else (number n, spend (4 + text_length n) b)
  bounded (text s) depth b =
      if spent_out b || ltb 16 depth then (null, mark b) else bounded_text s (spend 4 b)
  bounded (arr xs) depth b =
      let (ys, c) = bounded_items xs (suc depth) (spend 4 b) in
      if spent_out b || ltb 16 depth then (null, mark b) else (arr ys, c)
  bounded (obj fs) depth b =
      let (gs, c) = bounded_fields fs (suc depth) (spend 4 b) in
      if spent_out b || ltb 16 depth then (null, mark b) else (obj gs, c)

  pub bounded_items : Items → ℕ → Budget → Items × Budget
  bounded_items nil depth b = (nil, b)
  bounded_items (cons x xs) depth b =
      let (y, c) = bounded x depth b in
      let (ys, d) = bounded_items xs depth c in
      if spent_out b then (nil, mark b) else (cons y ys, d)

  pub bounded_fields : Fields → ℕ → Budget → Fields × Budget
  bounded_fields end depth b = (end, b)
  bounded_fields (field k v fs) depth b =
      let (w, c) = bounded v depth (spend (text_length k + 4) b) in
      let (gs, d) = bounded_fields fs depth c in
      if ltb b.remaining (text_length k + 16) then (end, mark b) else (field k w gs, d)

-- `d[key] = value` on a result that `bounded` built
unfoldable pub put : String → Json → Fields → Fields
put key value end = field key value end
put key value (field k v rest) =
    if str_eq k key then field k value rest else field k v (put key value rest)

abbrev pub is_true : Json → Bool
is_true (bool true) = true
is_true _ = false

abbrev raw_error : Json → Bool
raw_error (obj raw) = is_true (get "isError" raw)
raw_error _ = false

-- `_is_mcp_error_output`
unfoldable pub is_mcp_error_output : Json → Bool
is_mcp_error_output (obj output) = raw_error (get "raw" output) || is_true (get "isError" output)
is_mcp_error_output _ = false

-- `result if isinstance(result, dict) else {"content": result}`
abbrev as_fields : Json → Fields
as_fields (obj fields) = fields
as_fields result = field "content" result end

mark_result : Json → Json → Bool → Json
unfolding put is_mcp_error_output
mark_result output result false = result
mark_result output result true =
    let marked = put "_truncated" (bool true) (as_fields result) in
    obj (if is_mcp_error_output output then put "isError" (bool true) marked else marked)

limit_structure : ℕ → Json → Json
unfolding bounded mark_result
limit_structure max_chars output =
    let (result, b) = bounded output 0 (record { remaining = max_chars; truncated = false }) in
    mark_result output result b.truncated

-- `_limit_output`, for the limit that `_output_limit` returns.
unfoldable pub limit_output : ℕ → Json → Json
unfolding limit_structure
limit_output max_chars (text s) = text (cut max_chars s)
limit_output max_chars output = limit_structure max_chars output

-- `_output_limit`: the manifest's "max_chars" if it is a positive int, and the settings' limit.
unfoldable pub output_limit : Option ℕ → ℕ → ℕ
output_limit none limit = limit
output_limit (some policy) limit = if policy == 0 then limit else min policy limit
