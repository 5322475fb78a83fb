-- ===== src/Chunking/Rounds.antt =====
-- backend/app/services/rag.py: the rounds of the loop that cuts a document into chunks.
use agent_demo.Prelude.{
  CodePoints, ℕ, zero, suc, ◌+◌, ◌-◌, ◌/◌, min, max, ◌≤◌, ◌<◌, ◌≡◌, ◌⊎◌, inl, inr, refl, ◌∙◌, arith,
  some, List, [], ◌∷◌, ◌==◌, lt→ltb, ==_iff, false, Option-cases, length,
}
use agent_demo.Chunking.{
  Span, last_match, rfind, separators, boundary_or, cut_at, chunk_end, span_of, spans_from,
}

last_match_bound :
    (separator text : CodePoints) (floor count at : ℕ)
    → last_match separator text floor count ≡ some at
    → at < floor + count
unfolding last_match
last_match_bound separator text floor zero at h = absurd (grind arith)
last_match_bound separator text floor (suc count) at h =
    ground (arith, last_match_bound separator text floor count at)

-- A place at which a chunk may end.
abbrev Within : ℕ → ℕ → ℕ → Type 0
Within floor end at = (at ≤ end) × ((floor ≤ at) ⊎ (at ≡ end))

boundary_or-Within :
    (text : CodePoints) (floor end : ℕ) (separator : CodePoints) (next : ℕ)
    → 0 < length separator
    → Within floor end next
    → Within floor end (boundary_or floor separator (rfind separator text floor end) next)
unfolding rfind
boundary_or-Within text floor end separator next h w =
    elim (Option-cases (last_match separator text floor (suc (end - floor) - length separator))) [
      | inl e ↦ rw e w
      | inr (at, e) ↦ rw e (
          ground (
            arith,
            last_match_bound separator text floor (suc (end - floor) - length separator) at e,
          ))
    ]

abbrev AreNonempty : List CodePoints → Type 0
AreNonempty [] = Unit
AreNonempty (separator ∷ more) = (0 < length separator) × AreNonempty more

cut_at-Within :
    (text : CodePoints) (floor end : ℕ) (texts : List CodePoints)
    → AreNonempty texts
    → Within floor end (cut_at text floor end texts)
unfolding cut_at
cut_at-Within text floor end [] h = (omega arith, inr refl)
cut_at-Within text floor end (separator ∷ more) h =
    boundary_or-Within text floor end separator _ h.0 (cut_at-Within text floor end more h.1)

pub lt_or_eq : (a b : ℕ) → a ≤ b → (a < b) ⊎ (a ≡ b)
lt_or_eq a b h = ground arith

lt→neq : (a b : ℕ) → a < b → (a == b) ≡ false
lt→neq a b h = ground arith

-- A round of the loop: where its chunk ends.
pub record Ends (clean : CodePoints) (chunk_size overlap start end : ℕ) : Type 0 where
  pub in_text : end ≤ length clean
  pub in_size : end ≤ start + chunk_size
  pub ahead : (start + overlap < end) ⊎ (end ≡ length clean)

pub chunk_end-Ends :
    (clean : CodePoints) (chunk_size overlap start : ℕ)
    → overlap < chunk_size
    → Ends clean chunk_size overlap start (chunk_end clean chunk_size overlap start)
unfolding chunk_end
chunk_end-Ends clean chunk_size overlap start h =
    let w =
      cut_at-Within clean (start + max (chunk_size / 2) (overlap + 1))
        (min (start + chunk_size) (length clean)) separators
        (omega arith, (omega arith, (omega arith, (omega arith, (omega arith, tt))))) in
    record { in_text = ground (arith, w); in_size = ground (arith, w); ahead = ground (arith, w) }

-- Chunks that cover the text from an offset on, each next one beginning `overlap` before the end of the
-- one before.
pub data Tiling (clean : CodePoints) (chunk_size overlap : ℕ) : ℕ → List Span → Type 0 where
  last :
      {start : ℕ}
      → start < length clean
      → length clean ≤ start + chunk_size
      → Tiling clean chunk_size overlap start (span_of clean start (length clean) ∷ [])
  next :
      {start end : ℕ} {spans : List Span}
      → start + overlap < end
      → end < length clean
      → end ≤ start + chunk_size
      → Tiling clean chunk_size overlap (end - overlap) spans
      → Tiling clean chunk_size overlap start (span_of clean start end ∷ spans)

pub record Tiled (fuel : ℕ) (clean : CodePoints) (chunk_size overlap start : ℕ) : Type 0 where
  pub spans : List Span
  pub found : spans_from fuel clean chunk_size overlap start ≡ some spans
  pub tiling : Tiling clean chunk_size overlap start spans

last_round :
    (fuel : ℕ) (clean : CodePoints) (chunk_size overlap start : ℕ)
    → start < length clean
    → chunk_end clean chunk_size overlap start ≡ length clean
    → spans_from (suc fuel) clean chunk_size overlap start
      ≡ some (span_of clean start (length clean) ∷ [])
unfolding spans_from
last_round fuel clean chunk_size overlap start h e =
    rw (lt→ltb start (length clean) h, e, (==_iff (length clean) (length clean)).1 refl) refl

next_round :
    (fuel : ℕ) (clean : CodePoints) (chunk_size overlap start end : ℕ) (spans : List Span)
    → start < length clean
    → end < length clean
    → chunk_end clean chunk_size overlap start ≡ end
    → spans_from fuel clean chunk_size overlap (end - overlap) ≡ some spans
    → spans_from (suc fuel) clean chunk_size overlap start ≡ some (span_of clean start end ∷ spans)
unfolding spans_from
next_round fuel clean chunk_size overlap start end spans h k e r =
    rw (lt→ltb start (length clean) h, e, lt→neq end (length clean) k, r) refl

-- The loop ends once its fuel is more than what is left of the text.
pub spans_from-Tiled :
    (fuel : ℕ) (clean : CodePoints) (chunk_size overlap start end : ℕ)
    → overlap < chunk_size
    → start < length clean
    → length clean < start + fuel
    → chunk_end clean chunk_size overlap start ≡ end
    → Ends clean chunk_size overlap start end
    → Tiled fuel clean chunk_size overlap start
spans_from-Tiled zero clean chunk_size overlap start end h k l q e = absurd (omega arith)
spans_from-Tiled (suc fuel) clean chunk_size overlap start end h k l q e =
    elim (lt_or_eq end (length clean) e.in_text) [
      | inr at_end ↦ record {
        spans = span_of clean start (length clean) ∷ [];
        found = last_round fuel clean chunk_size overlap start k (q ∙ at_end);
        tiling = last k (omega (arith, e.in_size));
      }
      | inl before ↦
          let ahead : start + overlap < end = grind (arith, e.ahead) in
          let t =
            spans_from-Tiled fuel clean chunk_size overlap (end - overlap) _ h (omega arith)
              (omega arith) refl (chunk_end-Ends clean chunk_size overlap (end - overlap) h) in
          record {
            spans = span_of clean start end ∷ t.spans;
            found = next_round fuel clean chunk_size overlap start end t.spans k before q t.found;
            tiling = next ahead before e.in_size t.tiling;
          }
    ]
