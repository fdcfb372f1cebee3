-- ===== src/Tests/Fixtures.antt =====
-- A board of eight by two squares with three rooks, and a game on it.
use kung_fu_chess.Prelude.{ℕ, refl, false, none, some, List, [], ◌∷◌, pos}
use kung_fu_chess.Model.{Position, Piece, PieceColor, white, black, rook, idle}
use kung_fu_chess.Model.Board.{Board, in_bounds, piece_at, cell_at, write_cell, add_piece}
use kung_fu_chess.RealTime.Safety.Invariant.{IsCoherent}
use kung_fu_chess.RealTime.Safety.Setup.{
  IsSetUp, empty_board, empty_board-IsSetUp, add_piece-ok-IsSetUp,
}
use kung_fu_chess.Engine.{Command, moves, jumps, waits}

abbrev pub square : ℕ → ℕ → Position
square r c = record { row = pos r; col = pos c }

abbrev pub new_rook : ℕ → PieceColor → Position → Piece
new_rook id color cell = record {
  id = id;
  color = color;
  kind = rook;
  cell = cell;
  state = idle;
  has_moved = false;
}

abbrev pub jumper : Piece
jumper = new_rook 1 white (square 1 4)

abbrev pub slow_friend : Piece
slow_friend = new_rook 2 white (square 0 0)

abbrev pub enemy : Piece
enemy = new_rook 3 black (square 0 7)

abbrev pub with_jumper : Board
with_jumper = record {
  width = 8;
  height = 2;
  cells =
      none
      ∷ none
      ∷ none
      ∷ none
      ∷ none
      ∷ none
      ∷ none
      ∷ none
      ∷ none
      ∷ none
      ∷ none
      ∷ none
      ∷ some jumper
      ∷ none
      ∷ none
      ∷ none
      ∷ [];
}

abbrev pub with_friend : Board
with_friend = record {
  width = 8;
  height = 2;
  cells =
      some slow_friend
      ∷ none
      ∷ none
      ∷ none
      ∷ none
      ∷ none
      ∷ none
      ∷ none
      ∷ none
      ∷ none
      ∷ none
      ∷ none
      ∷ some jumper
      ∷ none
      ∷ none
      ∷ none
      ∷ [];
}

-- W . . . . . . b
-- . . . . W . . .
abbrev pub rooks : Board
rooks = record {
  width = 8;
  height = 2;
  cells =
      some slow_friend
      ∷ none
      ∷ none
      ∷ none
      ∷ none
      ∷ none
      ∷ none
      ∷ some enemy
      ∷ none
      ∷ none
      ∷ none
      ∷ none
      ∷ some jumper
      ∷ none
      ∷ none
      ∷ none
      ∷ [];
}

pub rooks-IsSetUp : IsSetUp 4 rooks
unfolding add_piece write_cell in_bounds piece_at cell_at
rooks-IsSetUp =
    add_piece-ok-IsSetUp 3 with_friend rooks enemy
      (add_piece-ok-IsSetUp 2 with_jumper with_friend slow_friend
        (add_piece-ok-IsSetUp 1 (empty_board 8 2) with_jumper jumper (empty_board-IsSetUp 8 2 1)
          refl refl refl refl)
        refl refl refl refl)
      refl refl refl refl

pub rooks-IsCoherent : IsCoherent rooks
rooks-IsCoherent = rooks-IsSetUp.coherent

-- Two white rooks make for one square; the nearer one rests there, jumps, and is passed through by
-- a black rook, which the other white rook then takes. The jumper lands on its friend.
abbrev pub lost_jump : List Command
lost_jump =
    moves (square 0 0) (square 0 4)
    ∷ moves (square 1 4) (square 0 4)
    ∷ waits 900
    ∷ moves (square 0 7) (square 0 4)
    ∷ waits 2600
    ∷ jumps (square 0 4)
    ∷ waits 1000
    ∷ []
