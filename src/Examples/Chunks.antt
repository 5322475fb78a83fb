-- ===== src/Examples/Chunks.antt =====
-- A text of eleven characters, cut into chunks of five that share two.
use agent_demo.Prelude.{◌≡◌, ◌≤◌, List, [], ◌∷◌, length, CodePoints, some, arith}
use agent_demo.Outcome.{ok}
use agent_demo.Chunking.{Span, clean_text, split_spans, split_spans_on}
use agent_demo.Chunking.Cover.{
  joined, AreChunks, split_spans_ends, split_spans_joins, split_spans-AreChunks,
}

-- " one two\r\n\r\nsix"
abbrev words : CodePoints
words = 32 ∷ 111 ∷ 110 ∷ 101 ∷ 32 ∷ 116 ∷ 119 ∷ 111 ∷ 13 ∷ 10 ∷ 13 ∷ 10 ∷ 115 ∷ 105 ∷ 120 ∷ []

split_spans_ends_example :
    (spans : List Span) × (split_spans_on 20 words 5 2 ≡ ok (some spans))
    × (length spans ≤ length (clean_text words))
unfolding clean_text
split_spans_ends_example = split_spans_ends 20 words 5 2 (omega arith) (omega arith)

split_spans_joins_example :
    (spans : List Span) × (split_spans words 5 2 ≡ ok (some spans))
    × (joined 2 spans ≡ clean_text words)
split_spans_joins_example = split_spans_joins words 5 2 (omega arith)

split_spans-AreChunks_example :
    (spans : List Span) × (split_spans words 5 2 ≡ ok (some spans))
    × AreChunks (clean_text words) 5 spans
split_spans-AreChunks_example = split_spans-AreChunks words 5 2 (omega arith)
