-- ===== src/Scripts/Game.antt =====
-- logic/src/kfc/texttests/game.cpp: a game that is played at one board, and the events that it publishes.
use kung_fu_chess.Prelude.{
  ℕ, ℤ, Bool, true, false, not, ◌&&◌, if◌then◌else◌, Option, none, List, [], ◌∷◌, ◌++◌, map, Result,
  ok, ◌>>=◌,
}
use kung_fu_chess.Model.{PieceColor}
use kung_fu_chess.Model.Board.{Board}
use kung_fu_chess.RealTime.{MotionFactory, ArrivalEvent}
use kung_fu_chess.RealTime.Observers.{GameOverObserver, new_observer, observe, is_game_over}
use kung_fu_chess.Engine.{GameCore, make_game_core}
use kung_fu_chess.Engine
use kung_fu_chess.Input.{BoardMapper, Controller, ControllerResult, engine_requester}
use kung_fu_chess.Input
use kung_fu_chess.Io.{Text, print}

-- The factory stands for the policies and speeds; what is published is what `wait` returns.
pub record Game : Type 0 where
  pub factory : MotionFactory
  pub core : GameCore
  pub controller : Controller
  pub game_over : GameOverObserver
  pub started : Bool
  pub ended : Bool

unfoldable pub new_game : Board → MotionFactory → Game
unfolding make_game_core
new_game b f = record {
  factory = f;
  core = make_game_core b;
  controller = record {
    board_mapper = record { board_width = b.width; board_height = b.height };
    controlled_color = none;
    selected_cell = none;
    selected_piece_id = none;
  };
  game_over = new_observer;
  started = false;
  ended = false;
}

unfoldable pub click_game : ℤ → ℤ → Game → Result (ControllerResult × Game)
unfolding Input.click
click_game x y g =
    Input.click (engine_requester g.factory) x y g.controller g.core >>= λ (r, c, core).
    ok (r, record g { controller = c; core = core })

unfoldable pub jump_game : ℤ → ℤ → Game → Result (ControllerResult × Game)
unfolding Input.jump
jump_game x y g = Input.jump (engine_requester g.factory) x y g.controller g.core >>= λ (r, core).
    ok (r, record g { core = core })

-- GameStarted, ArrivalEvent, GameEnded.
pub data GameEvent : Type 0 where
  game_started : GameEvent
  arrived : ArrivalEvent → GameEvent
  game_ended : Option PieceColor → GameEvent

abbrev pub verdict_of : GameOverObserver → Option PieceColor
verdict_of o = if o.draw then none else o.winner

unfoldable pub after_step : Game → List ArrivalEvent × GameCore → List GameEvent × Game
unfolding observe is_game_over
after_step g (events, core) =
    let o = observe g.game_over events in
    let ends = not g.ended && is_game_over o in
    (
      (if g.started then [] else game_started ∷ [])
          ++ (map (λ e. arrived e) events ++ (if ends then game_ended (verdict_of o) ∷ [] else [])),
      record g {
        core = core;
        game_over = o;
        started = true;
        ended = if ends then true else g.ended;
      },
    )

unfoldable pub wait_game : ℕ → Game → Result (List GameEvent × Game)
unfolding Engine.wait after_step
wait_game ms g = Engine.wait ms g.core >>= λ r. ok (after_step g r)

unfoldable pub print_board : Game → Text
unfolding print
print_board g = print g.core.board
