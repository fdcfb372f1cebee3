-- ===== src/Tests/BoardTests.antt =====
-- The board's contract on a board of two by two squares.
use kung_fu_chess.Prelude.{
  ◌≡◌, refl, false, none, some, [], ◌∷◌, pos, negsuc, err, invalid_argument,
}
use kung_fu_chess.Model.{Position, Piece, white, king, idle, moving}
use kung_fu_chess.Model.Board.{
  Board, make_board, in_bounds, piece_at, AddsPiece, SetsState, MovesPiece, edits_contract,
}

abbrev corner : Position
corner = record { row = pos 0; col = pos 0 }

abbrev opposite : Position
opposite = record { row = pos 1; col = pos 1 }

abbrev outside : Position
outside = record { row = negsuc 0; col = pos 1 }

abbrev white_king : Piece
white_king = record {
  id = 1;
  color = white;
  kind = king;
  cell = corner;
  state = idle;
  has_moved = false;
}

abbrev small : Board
small = record { width = 2; height = 2; cells = some white_king ∷ none ∷ none ∷ none ∷ [] }

negative_width : make_board (negsuc 2) (pos 4) ≡ err invalid_argument
unfolding make_board
negative_width = refl

off_board : piece_at small outside ≡ none
unfolding piece_at in_bounds
off_board = refl

abbrev newcomer : Piece
newcomer = record white_king { cell = opposite }

edits_contract_example :
    AddsPiece small newcomer × SetsState small corner moving × MovesPiece small corner opposite
edits_contract_example = edits_contract small newcomer corner corner opposite moving refl
