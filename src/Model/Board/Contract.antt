-- ===== src/Model/Board/Contract.antt =====
-- The contract of the board's mutations: each exception exactly where it is thrown, and otherwise
-- the new board square by square.
use kung_fu_chess.Prelude.{
  ◌≡◌, true, false, ◌&&◌, Bool-cases, Option-cases, ◌⊎◌, inl, inr, if◌then◌else◌, Option, none,
  some, err, Returns, out_of_range, logic_error, arith,
}
use kung_fu_chess.Model.Pieces.{Position, Piece, PieceState, position_eq}
use kung_fu_chess.Model.Board.Defs.{
  Board, in_bounds, write_cell, piece_at, add_piece, set_piece_state, move_piece,
}
use kung_fu_chess.Model.Board.Laws.{IsValid, Inside, cell_at-piece_at}
use kung_fu_chess.Model.Board.Effects.{
  Writes, write_cell-Writes, add_piece-Writes, set_piece_state-Writes,
}

-- On a valid board `add_piece` does one of three things: off the board it throws `out_of_range`, on
-- an occupied square `logic_error`, and on a free square it returns a valid board that differs from
-- the old one on the piece's square alone.
add_piece_contract :
    (b : Board) (x : Piece)
    → IsValid b
    → (in_bounds b x.cell ≡ false) × (add_piece b x ≡ err out_of_range)
      ⊎ ((y : Piece) × (piece_at b x.cell ≡ some y) × (add_piece b x ≡ err logic_error))
      ⊎ (Inside b x.cell
          × (piece_at b x.cell ≡ none)
          × Returns (Writes b x.cell (some x)) (add_piece b x))
unfolding add_piece
add_piece_contract b x valid = elim (Bool-cases (in_bounds b x.cell)) [
  | inr off ↦ inl (off, rw off)
  | inl i ↦ elim (Option-cases (piece_at b x.cell)) [
    | inl e ↦ inr (inr (i, e, add_piece-Writes b x valid i e))
    | inr (y, e) ↦ inr (inl (y, e, rw (i, cell_at-piece_at b x.cell i, e)))
  ]
]

-- On a valid board `set_piece_state` does one of three things: off the board it throws
-- `out_of_range`, on an empty square `logic_error`, and else it changes the state of the piece that
-- stands there, and nothing else of it or of the board.
set_piece_state_contract :
    (b : Board) (p : Position) (s : PieceState)
    → IsValid b
    → (in_bounds b p ≡ false) × (set_piece_state b p s ≡ err out_of_range)
      ⊎ (Inside b p × (piece_at b p ≡ none) × (set_piece_state b p s ≡ err logic_error))
      ⊎ ((x : Piece) × (piece_at b p ≡ some x)
          × Returns (Writes b p (some (record x { state = s }))) (set_piece_state b p s))
unfolding set_piece_state
set_piece_state_contract b p s valid = elim (Bool-cases (in_bounds b p)) [
  | inr off ↦ inl (off, rw off)
  | inl i ↦ elim (Option-cases (piece_at b p)) [
    | inl e ↦ inr (inl (i, e, rw (i, cell_at-piece_at b p i, e)))
    | inr (x, e) ↦ inr (inr (x, e, set_piece_state-Writes b p valid i s x e))
  ]
]

-- What a move leaves on the square `q`.
abbrev pub after_move : Board → Position → Position → Piece → Position → Option Piece
after_move b from to x q =
    if position_eq q to
    then some (record x { cell = to })
    else if position_eq q from
    then none
    else piece_at b q

abbrev pub Moved : Board → Position → Position → Piece → Board → Type 0
Moved b from to x c = IsValid c × ((q : Position) → piece_at c q ≡ after_move b from to x q)

module _ (b : Board) (from to : Position) (valid : IsValid b) where
  move_piece-Moved :
      (x : Piece)
      → Inside b from
      → Inside b to
      → piece_at b from ≡ some x
      → Returns (Moved b from to x) (move_piece b from to)
  unfolding move_piece
  move_piece-Moved x i j e =
      let first = write_cell-Writes b from none valid i in
      let second =
        write_cell-Writes (write_cell b from none) to (some (record x { cell = to })) first.valid
          (rw (first.bounds to) j) in
      (
        write_cell (write_cell b from none) to (some (record x { cell = to })),
        rw (i, j, cell_at-piece_at b from i, e),
        (second.valid, λ q. rw (second.square q, first.square q)),
      )

  -- On a valid board `move_piece` does one of three things: it throws `out_of_range` if either
  -- square is off the board and `logic_error` if the source is empty, and else the source is
  -- emptied, the destination holds the moved piece with its new cell, whoever stood there, and no
  -- other square changes.
  move_piece_contract :
      ((in_bounds b from && in_bounds b to) ≡ false) × (move_piece b from to ≡ err out_of_range)
      ⊎ ((in_bounds b from && in_bounds b to) ≡ true)
        × (piece_at b from ≡ none)
        × (move_piece b from to ≡ err logic_error)
      ⊎ ((x : Piece) × (piece_at b from ≡ some x)
          × Inside b to
          × Returns (Moved b from to x) (move_piece b from to))
  unfolding move_piece
  move_piece_contract = elim (Bool-cases (in_bounds b from && in_bounds b to)) [
    | inr off ↦ inl (off, rw off)
    | inl on ↦
        let i : Inside b from = ground arith in
        let j : Inside b to = ground arith in
        elim (Option-cases (piece_at b from)) [
          | inl e ↦ inr (inl (on, e, rw (i, j, cell_at-piece_at b from i, e)))
          | inr (x, e) ↦ inr (inr (x, e, j, move_piece-Moved x i j e))
        ]
  ]

-- What adding a piece, changing a state and moving a piece come to.
abbrev pub AddsPiece : Board → Piece → Type 0
AddsPiece b x =
    (in_bounds b x.cell ≡ false) × (add_piece b x ≡ err out_of_range)
    ⊎ ((y : Piece) × (piece_at b x.cell ≡ some y) × (add_piece b x ≡ err logic_error))
    ⊎ (Inside b x.cell
        × (piece_at b x.cell ≡ none)
        × Returns (Writes b x.cell (some x)) (add_piece b x))

abbrev pub SetsState : Board → Position → PieceState → Type 0
SetsState b p s =
    (in_bounds b p ≡ false) × (set_piece_state b p s ≡ err out_of_range)
    ⊎ (Inside b p × (piece_at b p ≡ none) × (set_piece_state b p s ≡ err logic_error))
    ⊎ ((x : Piece) × (piece_at b p ≡ some x)
        × Returns (Writes b p (some (record x { state = s }))) (set_piece_state b p s))

abbrev pub MovesPiece : Board → Position → Position → Type 0
MovesPiece b from to =
    ((in_bounds b from && in_bounds b to) ≡ false) × (move_piece b from to ≡ err out_of_range)
    ⊎ ((in_bounds b from && in_bounds b to) ≡ true)
      × (piece_at b from ≡ none)
      × (move_piece b from to ≡ err logic_error)
    ⊎ ((x : Piece) × (piece_at b from ≡ some x)
        × Inside b to
        × Returns (Moved b from to x) (move_piece b from to))

-- On a valid board: `add_piece` throws `out_of_range` off the board and `logic_error` on an occupied
-- square, and else returns a valid board that differs on the piece's square alone; `set_piece_state`
-- throws `out_of_range` off the board and `logic_error` on an empty square, and else changes the state of
-- the piece there and nothing else; `move_piece` throws `out_of_range` if either square is off the board and
-- `logic_error` if the source is empty, and else empties the source and puts the piece, with its new
-- cell, on the destination, whoever stood there, and changes no other square.
pub edits_contract :
    (b : Board) (x : Piece) (p from to : Position) (s : PieceState)
    → IsValid b
    → AddsPiece b x × SetsState b p s × MovesPiece b from to
edits_contract b x p from to s valid = (
  add_piece_contract b x valid,
  set_piece_state_contract b p s valid,
  move_piece_contract b from to valid,
)
