-- ===== src/Tests/FlightTests.antt =====
-- Motions in flight, requests, observers and endings on the board of the fixtures.
use kung_fu_chess.Prelude.{
  ℕ, ◌+◌, ◌≡◌, refl, inl, inr, true, false, none, some, List, [], ◌∷◌, ok, Returns, arith,
}
use kung_fu_chess.Model.{Position, Piece, white, black, king, idle, moving, captured}
use kung_fu_chess.Model.Board.{
  piece_at, in_bounds, cell_at, index, write_cell, set_piece_state, remove_piece, add_piece,
  move_piece,
}
use kung_fu_chess.RealTime.{
  Motion, default_factory, RealTimeArbiter, PendingArrival, find_motion, ArrivalEvent, move,
  advance_time, age_cooldowns, still_active, arrivals_of, pending_arrivals, resolve_arrival,
  create_jump, create_move, insert_pending, sort_pending, resolve_all, resolve_one, block_arrival,
  land, resolve, rest_after, contains_id, drop_moves_of, erase_cooldowns, erase_cooldown,
  set_cooldown, find_cooldown, apply_pawn_promotion, captured_a_king,
}
use kung_fu_chess.RealTime.Observers.{
  observe, new_observer, verdict, observe-verdict, ScoreObserver,
}
use kung_fu_chess.RealTime.Safety.Ticks.{SafeAfter, advance_time-IsSafe}
use kung_fu_chess.RealTime.Timeline.{Reports, advance_time-Reports}
use kung_fu_chess.RealTime.Pending.{EntriesOf, IsStableSort, arrivals_of-IsStableSort}
use kung_fu_chess.RealTime.Resting.{two_steps, steps_add}
use kung_fu_chess.RealTime.LostJump.{IsMissing, IsLost, lands_on_friend-IsMissing}
use kung_fu_chess.Engine.{
  GameCore, make_game_core, Command, moves, run, request_move, request_jump, wait,
  any_king_captured,
}
use kung_fu_chess.Engine.Safety.{IsSound, run-IsSound}
use kung_fu_chess.Engine.Requests.{
  Answers, MayMove, MayJump, request_move-Answers, request_jump-Answers,
}
use kung_fu_chess.Tests.Fixtures.{
  square, new_rook, jumper, slow_friend, enemy, rooks, rooks-IsSetUp, rooks-IsCoherent,
}

-- Both white rooks make for one square.
abbrev converging : List Command
converging = moves (square 0 0) (square 0 4) ∷ moves (square 1 4) (square 0 4) ∷ []

in_flight : Returns IsSound (run default_factory converging (make_game_core rooks))
in_flight = run-IsSound default_factory rooks converging rooks-IsCoherent

advance_time-IsSafe_example :
    Returns SafeAfter (advance_time 5000 in_flight.0.board in_flight.0.arbiter)
advance_time-IsSafe_example =
    advance_time-IsSafe 5000 in_flight.0.board in_flight.0.arbiter in_flight.2

advance_time-Reports_example :
    Returns
      (Reports 5000 in_flight.0.arbiter)
      (advance_time 5000 in_flight.0.board in_flight.0.arbiter)
advance_time-Reports_example =
    advance_time-Reports 5000 in_flight.0.board in_flight.0.arbiter in_flight.2

abbrev flight : Piece → Position → ℕ → ℕ → Motion
flight x destination duration elapsed = record {
  moving_piece = x;
  source = x.cell;
  destination = destination;
  kind = move;
  duration_ms = duration;
  elapsed_ms = elapsed;
  cooldown_ms = 2500;
}

abbrev two_flights : RealTimeArbiter
two_flights = record {
  active_motions =
      flight slow_friend (square 0 4) 4000 1000 ∷ flight jumper (square 0 4) 1000 500 ∷ [];
  cooldowns_remaining_ms = (3, 900) ∷ [];
  clock_ms = 1000;
}

arrivals_of-IsStableSort_example :
    (entries : List PendingArrival) × EntriesOf 3500 two_flights.active_motions entries
    × IsStableSort 3500 entries (arrivals_of 3500 two_flights)
arrivals_of-IsStableSort_example = arrivals_of-IsStableSort 3500 two_flights

-- After the second of them has landed, and with a rest that goes on.
steps_add_example :
    two_steps 3000 400 rooks two_flights ≡ advance_time (3000 + 400) rooks two_flights
unfolding find_cooldown
steps_add_example = steps_add 3000 400 rooks two_flights (
    inr (
      (inl (omega arith), (inl (omega arith), tt)),
      (((λ e. absurd (omega (arith, e))), tt), (tt, tt)),
      (refl, (refl, tt)),
    ))

-- A jumper that was passed through, above a friend.
abbrev lost : Piece
lost = new_rook 9 white (square 0 0)

lost-IsMissing : IsMissing rooks lost
lost-IsMissing q y e i = absurd (omega (arith, rooks-IsSetUp.below q y e, i))

abbrev last_jump : Motion
last_jump = create_jump default_factory lost (square 0 0)

abbrev above_friend : RealTimeArbiter
above_friend = record {
  active_motions = last_jump ∷ flight jumper (square 0 4) 9000 500 ∷ [];
  cooldowns_remaining_ms = [];
  clock_ms = 1000;
}

lands_on_friend-IsMissing_example :
    Returns (IsLost rooks last_jump slow_friend) (advance_time 3000 rooks above_friend)
unfolding create_jump piece_at in_bounds cell_at find_motion
lands_on_friend-IsMissing_example =
    lands_on_friend-IsMissing 3000 rooks above_friend last_jump
      (flight jumper (square 0 4) 9000 500 ∷ []) slow_friend rooks-IsCoherent.valid refl
      (omega arith) (omega arith, tt) refl refl lost-IsMissing refl refl

request_move-Answers_example :
    Returns
      (Answers
        (make_game_core rooks)
        (square 0 0)
        (MayMove (make_game_core rooks) (square 0 0) (square 0 4))
        (λ x. create_move default_factory x (square 0 0) (square 0 4)))
      (request_move default_factory (make_game_core rooks) (square 0 0) (square 0 4))
unfolding make_game_core
request_move-Answers_example =
    request_move-Answers default_factory (make_game_core rooks) rooks-IsCoherent.valid (square 0 0)
      (square 0 4)

request_jump-Answers_example :
    Returns
      (Answers
        (make_game_core rooks)
        (square 1 4)
        (MayJump (make_game_core rooks) (square 1 4))
        (λ x. create_jump default_factory x (square 1 4)))
      (request_jump default_factory (make_game_core rooks) (square 1 4))
unfolding make_game_core
request_jump-Answers_example =
    request_jump-Answers default_factory (make_game_core rooks) rooks-IsCoherent.valid (square 1 4)

abbrev ended : GameCore
ended = record { board = rooks; arbiter = two_flights; is_game_over = true }

-- A rook flies at a black king.
abbrev hunter : Piece
hunter = record (new_rook 1 white (square 0 0)) { state = moving }

abbrev hunted : Piece
hunted = record (new_rook 2 black (square 0 2)) { kind = king }

abbrev hunt : GameCore
hunt = record {
  board = record { width = 3; height = 1; cells = some hunter ∷ none ∷ some hunted ∷ [] };
  arbiter = record {
    active_motions = flight hunter (square 0 2) 2000 1500 ∷ [];
    cooldowns_remaining_ms = [];
    clock_ms = 1500;
  };
  is_game_over = false;
}

abbrev landed_rook : Piece
landed_rook = record hunter { cell = square 0 2; state = idle; has_moved = true }

abbrev capture : ArrivalEvent
capture = record {
  moved_piece = landed_rook;
  source = square 0 0;
  destination = square 0 2;
  captured_piece = some (record hunted { state = captured });
  kind = move;
  was_promotion = false;
  arrived_at_ms = 2000;
}

abbrev hunt_over : GameCore
hunt_over = record {
  board = record { width = 3; height = 1; cells = none ∷ none ∷ some landed_rook ∷ [] };
  arbiter = record {
    active_motions = [];
    cooldowns_remaining_ms = (1, 2100) ∷ [];
    clock_ms = 2400;
  };
  is_game_over = true;
}

hunt-wait : wait 900 hunt ≡ ok (capture ∷ [], hunt_over)
unfolding wait any_king_captured piece_at in_bounds cell_at index write_cell move_piece add_piece
    remove_piece set_piece_state advance_time age_cooldowns set_cooldown erase_cooldown
    erase_cooldowns pending_arrivals still_active insert_pending sort_pending resolve_all
    resolve_one resolve_arrival block_arrival land rest_after contains_id drop_moves_of
    apply_pawn_promotion captured_a_king resolve find_cooldown
hunt-wait = refl

observe-verdict_example :
    observe new_observer (capture ∷ record capture { moved_piece = enemy } ∷ [])
    ≡ verdict (capture ∷ record capture { moved_piece = enemy } ∷ [])
observe-verdict_example = observe-verdict (capture ∷ record capture { moved_piece = enemy } ∷ [])

abbrev no_score : ScoreObserver
no_score = record { white_score = 0; black_score = 0 }

abbrev rook_taken : ArrivalEvent
rook_taken = record capture { captured_piece = some enemy }
