-- ===== src/Io/Printer.antt =====
-- board_printer.cpp.
use kung_fu_chess.Prelude.{
  ℕ, zero, suc, ◌-◌, Option, none, some, [], ◌∷◌, ◌++◌, pos, ◌==◌, if◌then◌else◌,
}
use kung_fu_chess.Model.{Piece}
use kung_fu_chess.Model.Board.{Board, piece_at}
use kung_fu_chess.Io.Tokens.{Text, piece_token_text}

-- A piece's token, or a dot.
unfoldable pub square_text : Option Piece → Text
unfolding piece_token_text
square_text none = 46 ∷ []
square_text (some x) = piece_token_text x.color x.kind

-- The squares of a row from the column `width - left` on, each but the first behind a space.
unfoldable pub print_cells : Board → ℕ → ℕ → Text
unfolding square_text
print_cells b row zero = []
print_cells b row (suc left) =
    let col = b.width - suc left in
    let rest = print_cells b row left in
    let square = square_text (piece_at b (record { row = pos row; col = pos col })) in
    (if col == 0 then [] else 32 ∷ []) ++ (square ++ rest)

-- The rows from `height - left` on, each with a newline behind it.
unfoldable pub print_rows : Board → ℕ → Text
unfolding print_cells
print_rows b zero = []
print_rows b (suc left) = print_cells b (b.height - suc left) b.width ++ (10 ∷ print_rows b left)

unfoldable pub print : Board → Text
unfolding print_rows
print b = print_rows b b.height
