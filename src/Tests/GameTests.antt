-- ===== src/Tests/GameTests.antt =====
-- Whole games on a board of eight by two squares.
use kung_fu_chess.Prelude.{
  ℕ, ◌≡◌, refl, Option, none, some, List, [], ◌∷◌, ◌+ℤ◌, ◌-ℤ◌, ok, Result, Returns,
}
use kung_fu_chess.Model.{Piece}
use kung_fu_chess.Model.Board.{
  Board, in_bounds, piece_at, cell_at, index, write_cell, add_piece, remove_piece, set_piece_state,
}
use kung_fu_chess.Rules.{
  validate_move, validate_piece, friendly_at, legal_destinations, sliding_destinations, slide,
  shift, contains, rule_for, register_rule, make_full_piece_rule_registry,
}
use kung_fu_chess.RealTime.{
  default_factory, create_move, create_jump, advance_time, resolve_arrival, resolve, is_piece_busy,
  motion_for, find_motion, insert_pending, resolve_one, erase_cooldown, fixed_speed,
  cell_step_distance, move_duration, find_cooldown, set_cooldown, age_cooldowns, erase_cooldowns,
  pending_arrivals, still_active, sort_pending, resolve_all, contains_id, rest_after, drop_moves_of,
  apply_pawn_promotion, block_arrival, land, start_motion, captured_a_king,
}
use kung_fu_chess.Engine.{
  GameCore, make_game_core, Command, run, request_move, request_jump, wait, step, start_move,
  jump_piece, launch, any_king_captured,
}
use kung_fu_chess.Engine.Safety.{IsSound, run-IsSound}
use kung_fu_chess.Tests.Fixtures.{rooks, rooks-IsCoherent, lost_jump}

run-IsSound_example : Returns IsSound (run default_factory lost_jump (make_game_core rooks))
run-IsSound_example = run-IsSound default_factory rooks lost_jump rooks-IsCoherent

abbrev ids_on : List (Option Piece) → List ℕ
ids_on [] = []
ids_on (none ∷ cells) = ids_on cells
ids_on (some x ∷ cells) = x.id ∷ ids_on cells

-- A run whose every part computes.
played : Board → List Command → Result GameCore
unfolding run step make_game_core default_factory fixed_speed request_move request_jump wait
    start_move jump_piece launch any_king_captured piece_at in_bounds cell_at index write_cell
    add_piece remove_piece set_piece_state is_piece_busy motion_for find_motion find_cooldown
    validate_move validate_piece friendly_at rule_for make_full_piece_rule_registry register_rule
    contains legal_destinations sliding_destinations slide shift start_motion advance_time
    age_cooldowns set_cooldown erase_cooldown erase_cooldowns pending_arrivals still_active
    insert_pending sort_pending resolve_all resolve_one resolve_arrival block_arrival land
    rest_after contains_id drop_moves_of apply_pawn_promotion captured_a_king resolve create_move
    create_jump cell_step_distance move_duration ◌+ℤ◌ ◌-ℤ◌
played b cs = run default_factory cs (make_game_core b)

abbrev ids_after : Result GameCore → List ℕ
ids_after (ok g) = ids_on g.board.cells
ids_after _ = []

-- Of the three rooks only one is left on the board, and the jumper was captured by nobody.
lost_jump_run : ids_after (played rooks lost_jump) ≡ 2 ∷ []
unfolding played
lost_jump_run = refl
