-- ===== src/Tests/InputTests.antt =====
-- Clicks and jumps on the board of the fixtures, with the engine as the requester.
use kung_fu_chess.Prelude.{some, Returns, pos}
use kung_fu_chess.Model.{Position, white}
use kung_fu_chess.RealTime.{default_factory}
use kung_fu_chess.Engine.{GameCore, MoveResult, make_game_core, request_move, request_jump}
use kung_fu_chess.Engine.Safety.{make_game_core-IsSound, request_move-IsSound, request_jump-IsSound}
use kung_fu_chess.Input.{BoardMapper, pixel_to_cell, Controller, click, jump, engine_requester}
use kung_fu_chess.Input.Selection.{Clicks, selection_lem, Jumps}
use kung_fu_chess.Tests.Fixtures.{square, rooks, rooks-IsCoherent}

abbrev mapper : BoardMapper
mapper = record { board_width = 8; board_height = 2 }

-- White has picked up the rook in the corner.
abbrev hand : Controller
hand = record {
  board_mapper = mapper;
  controlled_color = some white;
  selected_cell = some (square 0 0);
  selected_piece_id = some 2;
}

abbrev game : GameCore
game = make_game_core rooks

answers_moves :
    (s d : Position)
    → Returns {0, 0} (λ (r : MoveResult × GameCore). Unit) (request_move default_factory game s d)
answers_moves s d =
    let (r, e, _) =
      request_move-IsSound default_factory game
        (make_game_core-IsSound default_factory rooks rooks-IsCoherent) s d in
    (r, e, tt)

answers_jumps :
    (cell : Position)
    → Returns {0, 0} (λ (r : MoveResult × GameCore). Unit) (request_jump default_factory game cell)
answers_jumps cell =
    let (r, e, _) =
      request_jump-IsSound default_factory game
        (make_game_core-IsSound default_factory rooks rooks-IsCoherent) cell in
    (r, e, tt)

selection_lem_example :
    Returns
      (Clicks
        (engine_requester default_factory)
        hand
        game
        (pixel_to_cell mapper (pos 430) (pos 20)))
      (click (engine_requester default_factory) (pos 430) (pos 20) hand game)
    × Returns
        (Jumps
          (engine_requester default_factory)
          hand
          game
          (pixel_to_cell mapper (pos 430) (pos 20)))
        (jump (engine_requester default_factory) (pos 430) (pos 20) hand game)
selection_lem_example =
    selection_lem (engine_requester default_factory) hand game (pos 430) (pos 20) answers_moves
      answers_jumps tt
