-- ===== src/Topology/Frr/Lines.antt =====
-- Texts with numbers in them, and lines.
use labtris.Prelude.{String, ℕ, zero, suc, Text, codes, List, [], ◌∷◌, ◌++◌}
use labtris.Naming.Device.{decimal}

-- the text with a number in it: `f"{pre}{n}"`
abbrev pub with : String → ℕ → Text
with pre n = codes pre ++ decimal n

abbrev pub dot : Text → ℕ → Text
dot t n = t ++ b'.' ∷ decimal n

-- each text and a newline, and texts with newlines between them
unfoldable pub unlines : List Text → Text
unlines [] = []
unlines (t ∷ ts) = t ++ 10 ∷ unlines ts

unfoldable pub join_lines : List Text → Text
join_lines [] = []
join_lines (t ∷ []) = t
join_lines (t ∷ u ∷ ts) = t ++ 10 ∷ join_lines (u ∷ ts)

-- `n` numbers from `i` on
unfoldable pub range_from : ℕ → ℕ → List ℕ
range_from i zero = []
range_from i (suc n) = i ∷ range_from (suc i) n

abbrev pub range : ℕ → List ℕ
range n = range_from 0 n
