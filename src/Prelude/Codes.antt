-- ===== src/Prelude/Codes.antt =====
-- Texts as the lists of their code points.
use Prim.Native.Nat.{ℕ}
use mathlib.Core.Bool.{Bool, true, false, ◌&&◌}
use mathlib.Core.List.{List, [], ◌∷◌, ◌++◌}
use agent_demo.Prelude.Tests.{◌==◌}

abbrev pub CodePoints : Type 0
CodePoints = List ℕ

-- `text.startswith(needle)`, the needle first
unfoldable pub starts_with_text : CodePoints → CodePoints → Bool
starts_with_text [] text = true
starts_with_text (c ∷ needle) [] = false
starts_with_text (c ∷ needle) (d ∷ text) = c == d && starts_with_text needle text

unfoldable pub same_text : CodePoints → CodePoints → Bool
same_text [] [] = true
same_text [] (d ∷ text) = false
same_text (c ∷ other) [] = false
same_text (c ∷ other) (d ∷ text) = c == d && same_text other text

-- `"\n".join(lines)`
unfoldable pub join_lines : List CodePoints → CodePoints
join_lines [] = []
join_lines (line ∷ []) = line
join_lines (line ∷ next ∷ lines) = line ++ 10 ∷ join_lines (next ∷ lines)
