-- ===== src/Tests/LogTests.antt =====
-- The log of moves, for two arrivals.
use kung_fu_chess.Prelude.{◌-ℤ◌, ◌≡◌, refl, true, false, none, some, List, [], ◌∷◌, ◌++◌, map}
use kung_fu_chess.Model.{Piece, white, black, knight, pawn, idle}
use kung_fu_chess.RealTime.{ArrivalEvent, move}
use kung_fu_chess.Io.MoveLog.{
  new_move_log, move_text, entry_for, logged_moves, logged_entries, algebraic_notation,
}
use kung_fu_chess.Io.Logged.{log_all, of_side, log_all-logged}
use kung_fu_chess.Tests.Fixtures.{square}

abbrev rider : Piece
rider = record {
  id = 1;
  color = white;
  kind = knight;
  cell = square 5 5;
  state = idle;
  has_moved = true;
}

abbrev soldier : Piece
soldier = record rider { id = 2; color = black; kind = pawn }

abbrev ride : ArrivalEvent
ride = record {
  moved_piece = rider;
  source = square 7 6;
  destination = square 5 5;
  captured_piece = some soldier;
  kind = move;
  was_promotion = false;
  arrived_at_ms = 1500;
}

abbrev two_arrivals : List ArrivalEvent
two_arrivals = ride ∷ record ride { moved_piece = soldier; captured_piece = none } ∷ []

log_all-logged_example :
    (logged_moves white (log_all two_arrivals (new_move_log 8))
      ≡ logged_moves white (new_move_log 8) ++ map move_text (of_side white two_arrivals))
    × (logged_entries white (log_all two_arrivals (new_move_log 8))
        ≡ logged_entries white (new_move_log 8)
          ++ map (λ e. entry_for e (new_move_log 8).board_height) (of_side white two_arrivals))
log_all-logged_example = log_all-logged white two_arrivals (new_move_log 8)

-- Nxf3
noted : algebraic_notation ride 8 ≡ 78 ∷ 120 ∷ 102 ∷ 51 ∷ []
unfolding algebraic_notation ◌-ℤ◌
noted = refl
