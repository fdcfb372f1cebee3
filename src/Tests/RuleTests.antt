-- ===== src/Tests/RuleTests.antt =====
-- The rules of movement on a board of three by three squares.
use kung_fu_chess.Prelude.{
  ℕ, ◌+◌, ◌≡◌, refl, ◌↔◌, ◌⊎◌, true, false, none, some, [], ◌∷◌, ◌∈◌, pos, ◌+ℤ◌, abs, max, Returns,
  arith,
}
use kung_fu_chess.Model.{Position, Piece, white, black, rook, pawn, idle}
use kung_fu_chess.Model.Board.{Board, in_bounds, piece_at, cell_at}
use kung_fu_chess.Rules.{
  shift, slide, may_step, sliding_destinations, legal_destinations, king_rule, rook_rule,
  knight_rule, drone_rule, pawn_rule, rook_directions, validate_move, make_full_piece_rule_registry,
}
use kung_fu_chess.Rules.Destinations.{SlidesTo, mem-sliding_destinations}
use kung_fu_chess.Rules.Shapes.{rows_to, cols_to, stepper_destinations}
use kung_fu_chess.Rules.PawnMoves.{PawnMove, pawn_destinations}
use kung_fu_chess.Rules.Validation.{Judges, validate_move-Judges}

abbrev square : ℕ → ℕ → Position
square r c = record { row = pos r; col = pos c }

abbrev white_rook : Piece
white_rook = record {
  id = 1;
  color = white;
  kind = rook;
  cell = square 1 0;
  state = idle;
  has_moved = false;
}

abbrev black_pawn : Piece
black_pawn = record {
  id = 2;
  color = black;
  kind = pawn;
  cell = square 1 2;
  state = idle;
  has_moved = false;
}

-- . . .
-- R . p
-- . . .
abbrev board : Board
board = record {
  width = 3;
  height = 3;
  cells = none ∷ none ∷ none ∷ some white_rook ∷ none ∷ some black_pawn ∷ none ∷ none ∷ none ∷ [];
}

rook_run :
    legal_destinations rook_rule board white_rook
    ≡ square 0 0 ∷ square 2 0 ∷ square 1 1 ∷ square 1 2 ∷ []
unfolding legal_destinations slide shift in_bounds piece_at cell_at ◌+ℤ◌
rook_run = refl

mem-sliding_destinations_example :
    (square 1 2 ∈ sliding_destinations board white_rook rook_directions)
    ↔ SlidesTo board white_rook rook_directions (square 1 2)
mem-sliding_destinations_example =
    mem-sliding_destinations board white_rook (square 1 2) rook_directions (omega arith)

stepper_destinations_example :
    ((square 2 2 ∈ legal_destinations king_rule board white_rook) ↔ (
      (max (abs (rows_to white_rook (square 2 2))) (abs (cols_to white_rook (square 2 2))) ≡ 1)
      × (may_step board white (square 2 2) ≡ true)))
    × ((square 2 2 ∈ legal_destinations knight_rule board white_rook) ↔ (
        ((abs (rows_to white_rook (square 2 2)) ≡ 1) × (abs (cols_to white_rook (square 2 2)) ≡ 2)
          ⊎ (abs (rows_to white_rook (square 2 2)) ≡ 2)
            × (abs (cols_to white_rook (square 2 2)) ≡ 1))
        × (may_step board white (square 2 2) ≡ true)))
    × ((square 2 2 ∈ legal_destinations drone_rule board white_rook) ↔ (
        (((rows_to white_rook (square 2 2) ≡ pos 0) ⊎ (cols_to white_rook (square 2 2) ≡ pos 0))
          × ((abs (rows_to white_rook (square 2 2)) + abs (cols_to white_rook (square 2 2)) ≡ 1)
              ⊎ (abs (rows_to white_rook (square 2 2)) + abs (cols_to white_rook (square 2 2))
                  ≡ 2)))
        × (may_step board white (square 2 2) ≡ true)))
stepper_destinations_example = stepper_destinations board white_rook (square 2 2)

pawn_destinations_example :
    (square 2 2 ∈ legal_destinations pawn_rule board black_pawn)
    ↔ PawnMove board black_pawn (square 2 2)
pawn_destinations_example = pawn_destinations board black_pawn (square 2 2)

validate_move-Judges_example :
    Returns
      (Judges board (square 1 0) (square 1 2))
      (validate_move make_full_piece_rule_registry board (square 1 0) (square 1 2))
validate_move-Judges_example = validate_move-Judges board (square 1 0) (square 1 2)
