-- ===== src/Server/Match/State.antt =====
-- The fields of a Match, what its operations do to the world, and the parts that they share.
use kung_fu_chess.Prelude.{
  ℕ, Bool, true, false, not, ◌||◌, if◌then◌else◌, Option, none, some, List, [], ◌∷◌, map,
}
use kung_fu_chess.Model.{PieceColor, white, black, Position, color_eq}
use kung_fu_chess.Model.Board.{Board, piece_at}
use kung_fu_chess.RealTime.{MotionFactory, ArrivalEvent}
use kung_fu_chess.Engine.{GameCore, make_game_core}
use kung_fu_chess.Server.DisconnectWatch.{DisconnectWatch, new_watch}
use kung_fu_chess.Server.Audience.{
  MatchAudience, Name, SendFn, new_audience, broadcast, send_to, username_of, both_seats_taken,
}
use kung_fu_chess.Server.Messages.{ServerMessage, ClientMessage}

pub data GameEndReason : Type 0 where
  decisive draw disconnect : GameEndReason

pub data MatchState : Type 0 where
  waiting running frozen finished : MatchState

-- What a call does outside the match: messages sent, sockets closed, the result callback, the hook.
pub data Effect : Type 0 where
  sends : SendFn → ServerMessage → Effect
  closes : ℕ → Effect
  reports : GameEndReason → Option PieceColor → Name → Name → Effect
  wakes : Effect

-- A callback that is set or not is a Bool. `pending_game_over` holds the winner of its GameOver.
pub record Match : Type 0 where
  pub factory : MotionFactory
  pub core : GameCore
  pub revision : ℕ
  pub history : List ArrivalEvent
  pub audience : MatchAudience
  pub queue : List (PieceColor × ClientMessage)
  pub dropped_commands : ℕ
  pub has_wake_hook : Bool
  pub game_over : Bool
  pub pending_game_over : Option (Option PieceColor)
  pub has_on_result : Bool
  pub result_reported : Bool
  pub release_delay_ms : ℕ
  pub room_name : Name
  pub disconnect_watch : DisconnectWatch
  pub release_at : Option ℕ
  pub released : Bool

-- The constructor; the configuration has made the factory.
unfoldable pub new_match : Board → MotionFactory → Bool → ℕ → ℕ → Name → Match
unfolding make_game_core
new_match b f on_result grace_ms release_delay room = record {
  factory = f;
  core = make_game_core b;
  revision = 0;
  history = [];
  audience = new_audience;
  queue = [];
  dropped_commands = 0;
  has_wake_hook = false;
  game_over = false;
  pending_game_over = none;
  has_on_result = on_result;
  result_reported = false;
  release_delay_ms = release_delay;
  room_name = room;
  disconnect_watch = new_watch grace_ms;
  release_at = none;
  released = false;
}

unfoldable pub state : Match → MatchState
state m =
    if m.game_over
    then finished
    else if m.disconnect_watch.frozen
    then frozen
    else if both_seats_taken m.audience
    then running
    else waiting

abbrev pub write_to : List SendFn → ServerMessage → List Effect
write_to sockets message = map (λ s. sends s message) sockets

unfoldable pub broadcast_and_log : ServerMessage → Match → List Effect
broadcast_and_log message m = write_to (broadcast m.audience) message

unfoldable pub send_to_and_log : PieceColor → ServerMessage → Match → List Effect
send_to_and_log color message m = write_to (send_to color m.audience) message

-- An empty square is nobody's.
unfoldable pub owns_piece_at : PieceColor → Position → Match → Bool
owns_piece_at from cell m = elim (piece_at m.core.board cell) [
  | none ↦ true
  | some piece ↦ color_eq piece.color from
]

unfoldable pub report_result : GameEndReason → Option PieceColor → Match → List Effect × Match
report_result reason winner m = if m.result_reported || not m.has_on_result then ([], m) else (
  reports reason winner (username_of white m.audience) (username_of black m.audience) ∷ [],
  record m { result_reported = true },
)
