-- ===== src/Tests/TextTests.antt =====
-- Boards as text.
use kung_fu_chess.Prelude.{◌≡◌, refl, List, [], ◌∷◌, length}
use kung_fu_chess.Io.{
  Text, parse, row_width_mismatch, refused, parse_grid, tokenize, scan, same_widths,
}
use kung_fu_chess.Io.Reading.{Gives, Reads, parse-Gives}

-- "wK . bR" and ". .  ."
abbrev two_lines : List Text
two_lines = (119 ∷ 75 ∷ 32 ∷ 46 ∷ 32 ∷ 98 ∷ 82 ∷ []) ∷ (46 ∷ 32 ∷ 46 ∷ 32 ∷ 32 ∷ 46 ∷ []) ∷ []

parse-Gives_example : Gives (Reads (length two_lines)) (parse two_lines)
parse-Gives_example = parse-Gives two_lines

-- "." and ". ."
uneven : parse ((46 ∷ []) ∷ (46 ∷ 32 ∷ 46 ∷ []) ∷ []) ≡ refused row_width_mismatch
unfolding parse parse_grid tokenize scan same_widths
uneven = refl
