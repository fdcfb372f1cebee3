-- ===== src/Scripts/Turns.antt =====
-- A whole game at one board, as logic/src/kfc/texttests/game.cpp plays it by clicks, jumps and waits over its bus,
-- and what it has published so far.
use kung_fu_chess.Prelude.{
  ℤ, ℕ, ◌≡◌, Bool, true, false, if◌then◌else◌, List, [], ◌∷◌, ◌++◌, map, Result, ok, err, ◌>>=◌,
}
use kung_fu_chess.RealTime.{ArrivalEvent}
use kung_fu_chess.RealTime.Observers.{new_observer, observe}
use kung_fu_chess.Engine
use kung_fu_chess.Engine.{any_king_captured}
use kung_fu_chess.Scripts.Game.{
  Game, GameEvent, game_started, arrived, game_ended, verdict_of, click_game, jump_game, wait_game,
}
use kung_fu_chess.Scripts.Bus.{EventBus, publish_all}

pub data Turn : Type 0 where
  clicks : ℤ → ℤ → Turn
  jumps : ℤ → ℤ → Turn
  waits : ℕ → Turn

abbrev pub is_wait : Turn → Bool
is_wait (waits ms) = true
is_wait _ = false

abbrev pub silent : {A : Type 0} → Result (A × Game) → Result (List GameEvent × Game)
silent r = r >>= λ (a, g). ok ([], g)

-- The one method that a turn calls, and what it publishes.
unfoldable pub take_turn : Turn → Game → Result (List GameEvent × Game)
take_turn (clicks x y) g = silent (click_game x y g)
take_turn (jumps x y) g = silent (jump_game x y g)
take_turn (waits ms) g = wait_game ms g

unfoldable pub play_turns : {W : Type 0} → EventBus W → List Turn → W → Game → Result (W × Game)
unfolding publish_all take_turn
play_turns bus [] w g = ok (w, g)
play_turns bus (t ∷ ts) w g =
    take_turn t g >>= λ (events, k). play_turns bus ts (publish_all bus events w) k

-- What the engine reports in a turn, and in turns one after another.
abbrev pub reported : Turn → Game → List ArrivalEvent
reported (waits ms) g = elim (Engine.wait ms g.core) [ ok (es, core) ↦ es | err e ↦ [] ]
reported _ g = []

abbrev pub arrivals_along : List Turn → Game → List ArrivalEvent
arrivals_along [] g = []
arrivals_along (t ∷ ts) g =
    reported t g ++ (elim (take_turn t g) [ ok (events, k) ↦ arrivals_along ts k | err e ↦ [] ])

-- All that a game has published, if those have been its arrivals.
abbrev pub story : Game → List ArrivalEvent → List GameEvent
story g arrivals =
    (if g.started then game_started ∷ [] else [])
    ++ (map (λ e. arrived e) arrivals
        ++ (if g.ended then game_ended (verdict_of g.game_over) ∷ [] else []))

-- The state of a game, if those have been its arrivals.
pub record HasSeen (arrivals : List ArrivalEvent) (g : Game) : Type 0 where
  pub first : g.started ≡ false → arrivals ≡ []
  pub observed : g.game_over ≡ observe new_observer arrivals
  pub ended : g.ended ≡ any_king_captured arrivals
  pub over : g.core.is_game_over ≡ g.ended
