-- ===== src/Model/Board/Defs.antt =====
-- The class Board: its constructor, queries and mutations.
use kung_fu_chess.Prelude.{
  ℕ, ◌+◌, ◌*◌, Bool, not, ◌&&◌, ltb_ℤ, ℤ, pos, pos_part, if◌then◌else◌, Option, none, some, List,
  get_or, set, replicate, Result, ok, err, out_of_range, logic_error, invalid_argument,
}
use kung_fu_chess.Model.Pieces.{Position, Piece, PieceState}

pub record Board : Type 0 where
  pub width : ℕ
  pub height : ℕ
  pub cells : List (Option Piece)

-- The constructor.
unfoldable pub make_board : ℤ → ℤ → Result Board
make_board (pos w) (pos h) = ok (record { width = w; height = h; cells = replicate (w * h) none })
make_board _ _ = err invalid_argument

unfoldable pub in_bounds : Board → Position → Bool
in_bounds b p =
    not (ltb_ℤ p.row (pos 0))
    && ltb_ℤ p.row (pos b.height)
    && (not (ltb_ℤ p.col (pos 0)) && ltb_ℤ p.col (pos b.width))

-- The casts to `size_t`; only used in bounds.
unfoldable pub index : Board → Position → ℕ
index b p = pos_part p.row * b.width + pos_part p.col

-- cells_[index(pos)], read and written.
unfoldable pub cell_at : Board → Position → Option Piece
unfolding index
cell_at b p = get_or b.cells (index b p) none

unfoldable pub write_cell : Board → Position → Option Piece → Board
unfolding index
write_cell b p v = record b { cells = set b.cells (index b p) v }

unfoldable pub piece_at : Board → Position → Option Piece
piece_at b p = if in_bounds b p then cell_at b p else none

unfoldable pub add_piece : Board → Piece → Result Board
add_piece b piece =
    if in_bounds b piece.cell
    then (elim (cell_at b piece.cell) [
      | some _ ↦ err logic_error
      | none ↦ ok (write_cell b piece.cell (some piece))
    ])
    else err out_of_range

unfoldable pub set_piece_state : Board → Position → PieceState → Result Board
set_piece_state b p state =
    if in_bounds b p
    then (elim (cell_at b p) [
      | some piece ↦ ok (write_cell b p (some (record piece { state = state })))
      | none ↦ err logic_error
    ])
    else err out_of_range

unfoldable pub remove_piece : Board → Position → Result Board
remove_piece b p = if in_bounds b p then ok (write_cell b p none) else err out_of_range

unfoldable pub move_piece : Board → Position → Position → Result Board
move_piece b from to =
    if in_bounds b from && in_bounds b to
    then (elim (cell_at b from) [
      | some moving ↦
          ok (write_cell (write_cell b from none) to (some (record moving { cell = to })))
      | none ↦ err logic_error
    ])
    else err out_of_range
