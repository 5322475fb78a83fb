-- ===== src/Chunking/Cover.antt =====
-- backend/app/services/rag.py: the chunks of a document against its text.
use agent_demo.Prelude.{
  CodePoints, ℕ, zero, suc, ◌+◌, ◌≤◌, ◌<◌, ◌≡◌, inl, inr, refl, sym, ap, ◌∙◌, arith, some, List, [],
  ◌∷◌, ◌++◌, lt→ltb, length, drop,
}
use mathlib.Core.List.{append-nil}
use agent_demo.Outcome.{ok}
use agent_demo.Chunking.{Span, slice, clean_text, span_of, spans_from, split_spans_on, split_spans}
use agent_demo.Chunking.Slices.{drop-drop, drop-append, length-slice, slice-append-drop, slice_rest}
use agent_demo.Chunking.Rounds.{Tiling, last, next, spans_from-Tiled, chunk_end-Ends, lt_or_eq}

-- The chunks after the first, each without the overlap.
abbrev later_parts : ℕ → List Span → CodePoints
later_parts overlap [] = []
later_parts overlap (span ∷ spans) = drop overlap span.content ++ later_parts overlap spans

-- The text that chunks make together.
abbrev pub joined : ℕ → List Span → CodePoints
joined overlap [] = []
joined overlap (span ∷ spans) = span.content ++ later_parts overlap spans

without_overlap :
    (overlap start : ℕ) (clean content later : CodePoints)
    → overlap ≤ length content
    → content ++ later ≡ drop start clean
    → drop overlap content ++ later ≡ drop (start + overlap) clean
without_overlap overlap start clean content later h e =
    sym (drop-append overlap content later h)
    ∙ ap (λ t. drop overlap t) e
    ∙ drop-drop overlap start (start + overlap) clean refl

Tiling-joined :
    {clean : CodePoints} {chunk_size overlap start : ℕ} {spans : List Span}
    → Tiling clean chunk_size overlap start spans
    → (joined overlap spans ≡ drop start clean)
      × (start + overlap ≤ length clean → later_parts overlap spans ≡ drop (start + overlap) clean)
Tiling-joined {clean} {chunk_size} {overlap} {start} (last k l) =
    let whole : slice start (length clean) clean ++ [] ≡ drop start clean =
      append-nil _ ∙ slice_rest start clean (omega arith) in
    let long = length-slice start (length clean) clean (omega arith) (omega arith) in
    (whole, λ h. without_overlap overlap start clean _ [] (omega (arith, long)) whole)
Tiling-joined {clean} {chunk_size} {overlap} {start} (next {end = end} {spans = spans} k l m t) =
    let whole : slice start end clean ++ later_parts overlap spans ≡ drop start clean =
      ap (λ rest. slice start end clean ++ rest)
        ((Tiling-joined t).1 (omega arith) ∙ ap (λ i. drop i clean) (omega arith))
      ∙ slice-append-drop start end clean (omega arith) in
    let long = length-slice start end clean (omega arith) (omega arith) in
    (whole, λ h. without_overlap overlap start clean _ _ (omega (arith, long)) whole)

-- A chunk holds at least one character and at most `chunk_size`, and it is what stands in the text
-- between its offsets.
pub record IsChunk (clean : CodePoints) (chunk_size : ℕ) (span : Span) : Type 0 where
  pub some_text : 0 < length span.content
  pub in_size : length span.content ≤ chunk_size
  pub verbatim : span.content ≡ slice span.start span.end clean
  pub in_text : span.end ≤ length clean

abbrev pub AreChunks : CodePoints → ℕ → List Span → Type 0
AreChunks clean chunk_size [] = Unit
AreChunks clean chunk_size (span ∷ spans) =
    IsChunk clean chunk_size span × AreChunks clean chunk_size spans

slice-IsChunk :
    (clean : CodePoints) (chunk_size start end : ℕ)
    → start < end
    → end ≤ length clean
    → end ≤ start + chunk_size
    → IsChunk clean chunk_size (span_of clean start end)
slice-IsChunk clean chunk_size start end h k l =
    let long = length-slice start end clean (omega arith) k in
    record {
      some_text = omega (arith, long);
      in_size = omega (arith, long);
      verbatim = refl;
      in_text = k;
    }

Tiling-AreChunks :
    {clean : CodePoints} {chunk_size overlap start : ℕ} {spans : List Span}
    → Tiling clean chunk_size overlap start spans
    → AreChunks clean chunk_size spans
Tiling-AreChunks (last k l) = (slice-IsChunk _ _ _ _ k (omega arith) l, tt)
Tiling-AreChunks (next k l m t) =
    (slice-IsChunk _ _ _ _ (omega arith) (omega arith) m, Tiling-AreChunks t)

Tiling-count :
    {clean : CodePoints} {chunk_size overlap start : ℕ} {spans : List Span}
    → Tiling clean chunk_size overlap start spans
    → length spans + start ≤ length clean
Tiling-count (last k l) = omega arith
Tiling-count (next k l m t) = omega (arith, Tiling-count t)

-- What the splitting of a text on some fuel gives.
record Pieces (fuel : ℕ) (text : CodePoints) (chunk_size overlap : ℕ) : Type 0 where
  pub spans : List Span
  pub found : split_spans_on fuel text chunk_size overlap ≡ ok (some spans)
  pub joins : joined overlap spans ≡ clean_text text
  pub chunks : AreChunks (clean_text text) chunk_size spans
  pub count : length spans ≤ length (clean_text text)

no_chunks :
    (fuel : ℕ) (clean : CodePoints) (chunk_size overlap : ℕ)
    → length clean ≡ 0
    → spans_from (suc fuel) clean chunk_size overlap 0 ≡ some []
unfolding spans_from
no_chunks fuel clean chunk_size overlap h = rw h refl

split_spans_on-ok :
    (fuel : ℕ) (text : CodePoints) (chunk_size overlap : ℕ) (spans : List Span)
    → overlap < chunk_size
    → spans_from fuel (clean_text text) chunk_size overlap 0 ≡ some spans
    → split_spans_on fuel text chunk_size overlap ≡ ok (some spans)
unfolding split_spans_on
split_spans_on-ok fuel text chunk_size overlap spans h e =
    rw (lt→ltb 0 chunk_size (omega arith), lt→ltb overlap chunk_size h) (ap (λ found. ok found) e)

empty_text : (text : CodePoints) → length text ≡ 0 → [] ≡ text
empty_text [] h = refl
empty_text (c ∷ text) h = absurd (omega arith)

split_spans_on-Pieces :
    (fuel : ℕ) (text : CodePoints) (chunk_size overlap : ℕ)
    → overlap < chunk_size
    → length (clean_text text) < fuel
    → Pieces fuel text chunk_size overlap
split_spans_on-Pieces zero text chunk_size overlap h k = absurd (omega arith)
split_spans_on-Pieces (suc fuel) text chunk_size overlap h k =
    elim (lt_or_eq 0 (length (clean_text text)) (omega arith)) [
      | inr empty ↦ record {
        spans = [];
        found =
            split_spans_on-ok (suc fuel) text chunk_size overlap [] h
              (no_chunks fuel (clean_text text) chunk_size overlap (sym empty));
        joins = empty_text (clean_text text) (sym empty);
        chunks = tt;
        count = omega arith;
      }
      | inl filled ↦
          let t =
            spans_from-Tiled (suc fuel) (clean_text text) chunk_size overlap 0 _ h filled
              (omega arith) refl (chunk_end-Ends (clean_text text) chunk_size overlap 0 h) in
          record {
            spans = t.spans;
            found = split_spans_on-ok (suc fuel) text chunk_size overlap t.spans h t.found;
            joins = (Tiling-joined t.tiling).0;
            chunks = Tiling-AreChunks t.tiling;
            count = omega (arith, Tiling-count t.tiling);
          }
    ]

-- The loop ends: where the overlap is less than the chunk size, any fuel above the length of the clean
-- text gives chunks, and no more of them than the text has characters.
pub split_spans_ends :
    (fuel : ℕ) (text : CodePoints) (chunk_size overlap : ℕ)
    → overlap < chunk_size
    → length (clean_text text) < fuel
    → (spans : List Span) × (split_spans_on fuel text chunk_size overlap ≡ ok (some spans))
      × (length spans ≤ length (clean_text text))
split_spans_ends fuel text chunk_size overlap h k =
    let s = split_spans_on-Pieces fuel text chunk_size overlap h k in (s.spans, s.found, s.count)

-- Chunks lose nothing: where the overlap is less than the chunk size, the first chunk and the later
-- ones, each without the overlap, make the clean text again.
pub split_spans_joins :
    (text : CodePoints) (chunk_size overlap : ℕ)
    → overlap < chunk_size
    → (spans : List Span) × (split_spans text chunk_size overlap ≡ ok (some spans))
      × (joined overlap spans ≡ clean_text text)
unfolding split_spans
split_spans_joins text chunk_size overlap h =
    let s =
      split_spans_on-Pieces (suc (length (clean_text text))) text chunk_size overlap h
        (omega arith) in
    (s.spans, s.found, s.joins)

-- Where the overlap is less than the chunk size, every chunk holds at least one character and at most
-- `chunk_size`, and is the slice of the clean text between its offsets.
pub split_spans-AreChunks :
    (text : CodePoints) (chunk_size overlap : ℕ)
    → overlap < chunk_size
    → (spans : List Span) × (split_spans text chunk_size overlap ≡ ok (some spans))
      × AreChunks (clean_text text) chunk_size spans
unfolding split_spans
split_spans-AreChunks text chunk_size overlap h =
    let s =
      split_spans_on-Pieces (suc (length (clean_text text))) text chunk_size overlap h
        (omega arith) in
    (s.spans, s.found, s.chunks)
