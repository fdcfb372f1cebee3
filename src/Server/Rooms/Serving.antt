-- ===== src/Server/Rooms/Serving.antt =====
-- Any sequence of calls of a RoomManager, and of ticks of its matches.
use kung_fu_chess.Prelude.{
  ℕ, ◌≢◌, refl, Option, none, some, List, [], ◌∷◌, get_elem?, All, Result, ok, ◌>>=◌, Bool, arith,
}
use kung_fu_chess.Model.{PieceColor}
use kung_fu_chess.Model.Board.{Board}
use kung_fu_chess.RealTime.{MotionFactory}
use kung_fu_chess.Server.Audience.{Name}
use kung_fu_chess.Server.Messages.{ClientMessage}
use kung_fu_chess.Server.MatchScheduler.Ownership.{new_scheduler-IsManned}
use kung_fu_chess.Server.Rooms.State.{
  RoomManager, Place, Outcome, RoomEffect, new_manager, stop_all,
}
use kung_fu_chess.Server.Rooms.Joining.{Guest, join_any, create_room, join_room}
use kung_fu_chess.Server.Rooms.Leaving.{enqueue_for, disconnect, tick_room}
use kung_fu_chess.Server.Rooms.Invariant.{Kept}
use kung_fu_chess.Server.Rooms.Staying.{hold}
use kung_fu_chess.Server.Rooms.Removing.{remove_at}

-- `goes_away` names a place by where it stands among those that are held.
pub data Request : Type 0 where
  plays_any : Guest → Request
  creates : List Name → Guest → Request
  joins_named : Name → Option Name → Guest → Request
  commands : ℕ → PieceColor → ClientMessage → Request
  goes_away : ℕ → Request
  ticks : ℕ → ℕ → ℕ → Request
  stops : Request

-- The places held, and the manager.
abbrev pub World : Type 0
World = List Place × RoomManager

abbrev pub holding : List Place → Outcome × List RoomEffect × RoomManager → World
holding held (outcome, effects, m) = (hold outcome held, m)

abbrev pub created : World → Option (Outcome × List RoomEffect × RoomManager) → World
created w none = w
created (held, m) (some r) = holding held r

abbrev pub gone : ℕ → Option Place → World → World
gone i none w = w
gone i (some p) (held, m) = (remove_at i held, (disconnect p m).1)

unfoldable pub serve : Request → World → Result World
unfolding join_any create_room join_room enqueue_for disconnect tick_room stop_all
serve (plays_any g) (held, m) = join_any g m >>= λ r. ok (holding held r)
serve (creates draws g) (held, m) = ok (created (held, m) (create_room draws g m))
serve (joins_named key owner g) (held, m) = ok (holding held (join_room key owner g m))
serve (commands id from message) (held, m) = ok (held, (enqueue_for id from message m).1)
serve (goes_away i) (held, m) = ok (gone i (get_elem? held i) (held, m))
serve (ticks id now ms) (held, m) = tick_room id now ms m >>= λ r. ok (held, r.1)
serve stops (held, m) = ok (held, stop_all m)

unfoldable pub serve_all : List Request → World → Result World
unfolding serve
serve_all [] w = ok w
serve_all (r ∷ rs) w = serve r w >>= λ v. serve_all rs v

-- The generator draws ids that are not empty.
abbrev pub DrawsIds : List Request → Type 0
DrawsIds [] = Unit
DrawsIds (creates draws g ∷ rs) = All (λ d. d ≢ []) draws × DrawsIds rs
DrawsIds (_ ∷ rs) = DrawsIds rs

abbrev pub KeptWorld : World → Type 0
KeptWorld (held, m) = Kept held m

pub new_manager-Kept :
    (b : Board) (f : MotionFactory) (on_result : Bool) (grace_ms : ℕ) (directory : Bool)
    (url : Name) (hardware : ℕ)
    → Kept [] (new_manager b f on_result grace_ms directory url hardware)
unfolding new_manager
new_manager-Kept b f on_result grace_ms directory url hardware = record {
  rooms_ok = λ id. refl;
  rising = tt;
  once = λ id. omega arith;
  waits = λ e m. absurd m;
  names = λ key id e. absurd (cc);
  handed = λ p m. tt;
  scheduled = (new_scheduler-IsManned 0 hardware, λ id. refl);
}
