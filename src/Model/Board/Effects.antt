-- ===== src/Model/Board/Effects.antt =====
-- What each mutation of a board returns or throws, on every branch.
use kung_fu_chess.Prelude.{◌≡◌, refl, if◌then◌else◌, Option, none, some, Returns}
use kung_fu_chess.Model.Pieces.{Position, Piece, PieceState, position_eq}
use kung_fu_chess.Model.Board.Defs.{
  Board, in_bounds, write_cell, piece_at, add_piece, set_piece_state, remove_piece,
}
use kung_fu_chess.Model.Board.Laws.{
  IsValid, Inside, in_bounds-write_cell, write_cell-IsValid, piece_at-write_cell, cell_at-piece_at,
}

-- `c` is `b` with the square `p` set to `v`.
pub record Writes (b : Board) (p : Position) (v : Option Piece) (c : Board) : Type 0 where
  pub valid : IsValid c
  pub same_height : c.height ≡ b.height
  pub bounds : (q : Position) → in_bounds c q ≡ in_bounds b q
  pub square : (q : Position) → piece_at c q ≡ (if position_eq q p then v else piece_at b q)

pub write_cell-Writes :
    (b : Board) (p : Position) (v : Option Piece)
    → IsValid b
    → Inside b p
    → Writes b p v (write_cell b p v)
unfolding write_cell
write_cell-Writes b p v valid i = record {
  valid = write_cell-IsValid b p v valid;
  same_height = refl;
  bounds = in_bounds-write_cell b p v;
  square = λ q. piece_at-write_cell b p v q valid i;
}

module _ (b : Board) (p : Position) (valid : IsValid b) (i : Inside b p) where
  pub remove_piece-Writes : Returns (Writes b p none) (remove_piece b p)
  unfolding remove_piece
  remove_piece-Writes = (write_cell b p none, rw i, write_cell-Writes b p none valid i)

  pub set_piece_state-Writes :
      (s : PieceState) (x : Piece)
      → piece_at b p ≡ some x
      → Returns (Writes b p (some (record x { state = s }))) (set_piece_state b p s)
  unfolding set_piece_state
  set_piece_state-Writes s x e = (
    write_cell b p (some (record x { state = s })),
    rw (i, cell_at-piece_at b p i, e),
    write_cell-Writes b p _ valid i,
  )

pub add_piece-Writes :
    (b : Board) (x : Piece)
    → IsValid b
    → Inside b x.cell
    → piece_at b x.cell ≡ none
    → Returns (Writes b x.cell (some x)) (add_piece b x)
unfolding add_piece
add_piece-Writes b x valid i e = (
  write_cell b x.cell (some x),
  rw (i, cell_at-piece_at b x.cell i, e),
  write_cell-Writes b x.cell (some x) valid i,
)
