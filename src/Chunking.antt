-- ===== src/Chunking.antt =====
-- backend/app/services/rag.py: RagService._split_spans, which cuts a document into overlapping
-- chunks. A text is the list of its code points.
pub mod Slices
pub mod Rounds
pub mod Cover
use agent_demo.Prelude.{
  ℕ, zero, suc, ◌+◌, ◌-◌, ◌/◌, min, max, Bool, true, false, not, ◌&&◌, ◌||◌, Option, none, some,
  List, [], ◌∷◌, map, ltb, leb, ◌==◌, if◌then◌else◌, length, take, drop, is_space, CodePoints,
  starts_with_text,
}
use agent_demo.Outcome.{Error, Result, ok, err, value_error, guard, ◌>>◌}

-- A chunk with its offsets in the clean text.
pub record Span : Type 0 where
  pub content : CodePoints
  pub start : ℕ
  pub end : ℕ

-- `text[start:end]`
abbrev pub slice : ℕ → ℕ → CodePoints → CodePoints
slice start end text = take (end - start) (drop start text)

-- `text.replace("\r\n", "\n")`
unfoldable pub replace_crlf : CodePoints → CodePoints
replace_crlf [] = []
replace_crlf (c ∷ []) = c ∷ []
replace_crlf (c ∷ d ∷ text) =
    let rest = replace_crlf text in
    let kept = replace_crlf (d ∷ text) in if c == 13 && d == 10 then 10 ∷ rest else c ∷ kept

-- `text.replace("\r", "\n")`
unfoldable pub replace_cr : CodePoints → CodePoints
replace_cr text = map (λ c. if c == 13 then 10 else c) text

unfoldable pub strip_left : CodePoints → CodePoints
unfolding is_space
strip_left [] = []
strip_left (c ∷ text) = if is_space c then strip_left text else c ∷ text

unfoldable pub strip_right : CodePoints → CodePoints
unfolding is_space
strip_right [] = []
strip_right (c ∷ text) =
    let rest = strip_right text in if is_space c && length rest == 0 then [] else c ∷ rest

unfoldable pub clean_text : CodePoints → CodePoints
unfolding replace_crlf replace_cr strip_left strip_right
clean_text text = strip_left (strip_right (replace_cr (replace_crlf text)))

-- The last of the `count` offsets from `floor` on at which the separator stands.
unfoldable pub last_match : CodePoints → CodePoints → ℕ → ℕ → Option ℕ
unfolding starts_with_text
last_match separator text floor zero = none
last_match separator text floor (suc count) =
    let earlier = last_match separator text floor count in
    if starts_with_text separator (drop (floor + count) text) then some (floor + count) else earlier

-- `text.rfind(separator, floor, end)`, where `none` stands for -1; no separator is empty.
unfoldable pub rfind : CodePoints → CodePoints → ℕ → ℕ → Option ℕ
unfolding last_match
rfind separator text floor end =
    last_match separator text floor (suc (end - floor) - length separator)

-- "\n\n", "\n", "。", ". " and " "
abbrev pub separators : List CodePoints
separators = (10 ∷ 10 ∷ []) ∷ (10 ∷ []) ∷ (12290 ∷ []) ∷ (46 ∷ 32 ∷ []) ∷ (32 ∷ []) ∷ []

-- The end behind the last place of a separator, and the next separator where there is no place.
abbrev pub boundary_or : ℕ → CodePoints → Option ℕ → ℕ → ℕ
boundary_or floor separator none next = next
boundary_or floor separator (some boundary) next =
    if leb floor boundary then boundary + length separator else next

-- The loop over the separators.
unfoldable pub cut_at : CodePoints → ℕ → ℕ → List CodePoints → ℕ
unfolding rfind
cut_at text floor end [] = end
cut_at text floor end (separator ∷ more) =
    boundary_or floor separator (rfind separator text floor end) (cut_at text floor end more)

unfoldable pub chunk_end : CodePoints → ℕ → ℕ → ℕ → ℕ
unfolding cut_at
chunk_end clean chunk_size overlap start =
    let end = min (start + chunk_size) (length clean) in
    if ltb end (length clean)
    then cut_at clean (start + max (chunk_size / 2) (overlap + 1)) end separators
    else end

abbrev pub span_of : CodePoints → ℕ → ℕ → Span
span_of clean start end = record { content = slice start end clean; start = start; end = end }

abbrev pub cons_span : Span → Option (List Span) → Option (List Span)
cons_span span none = none
cons_span span (some spans) = some (span ∷ spans)

-- The loop, whose every round takes one unit of fuel; `none` is a loop that has not ended.
unfoldable pub spans_from : ℕ → CodePoints → ℕ → ℕ → ℕ → Option (List Span)
unfolding chunk_end
spans_from zero clean chunk_size overlap start = none
spans_from (suc fuel) clean chunk_size overlap start =
    let end = chunk_end clean chunk_size overlap start in
    let span = span_of clean start end in
    let rest = spans_from fuel clean chunk_size overlap (end - overlap) in
    if ltb start (length clean)
    then if end == length clean then some (span ∷ []) else cons_span span rest
    else some []

abbrev pub bad_size : Error
bad_size = value_error "Chunk size must be positive and overlap smaller than chunk size"

-- `none` within `ok` is a loop that has not ended on the fuel given.
unfoldable pub split_spans_on : ℕ → CodePoints → ℕ → ℕ → Result (Option (List Span))
unfolding clean_text spans_from
split_spans_on fuel text chunk_size overlap =
    guard (ltb 0 chunk_size && ltb overlap chunk_size) bad_size
    >> ok (spans_from fuel (clean_text text) chunk_size overlap 0)

-- A round moves `start` forward, so that the length of the text is fuel enough.
unfoldable pub split_spans : CodePoints → ℕ → ℕ → Result (Option (List Span))
unfolding split_spans_on
split_spans text chunk_size overlap =
    split_spans_on (suc (length (clean_text text))) text chunk_size overlap
