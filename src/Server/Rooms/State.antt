-- ===== src/Server/Rooms/State.antt =====
-- room_manager.hpp: the fields of a RoomManager, and what its operations answer and do to the world.
use kung_fu_chess.Prelude.{
  ℕ, ◌+◌, ◌-◌, Bool, ◌==◌, if◌then◌else◌, Option, none, some, List, [], map,
}
use kung_fu_chess.Model.{PieceColor}
use kung_fu_chess.Model.Board.{Board}
use kung_fu_chess.RealTime.{MotionFactory}
use kung_fu_chess.Server.Audience.{Name}
use kung_fu_chess.Server.MatchScheduler.{MatchScheduler, new_scheduler}
use kung_fu_chess.Server.Match.{Match, Effect}

pub record Room : Type 0 where
  pub match : Match
  pub seats_taken : ℕ
  pub connected : ℕ
  pub waiting_rating : ℕ
  pub name : Name

-- The maps of rooms and of names are functions; `waiting` lists the multimap in its order. The board
-- is what the factory makes. A room's match is the one that the scheduler knows by the room's id.
pub record RoomManager : Type 0 where
  pub board : Board
  pub factory : MotionFactory
  pub has_on_result : Bool
  pub disconnect_grace_ms : ℕ
  pub has_directory : Bool
  pub self_url : Name
  pub scheduler : Option MatchScheduler
  pub rooms : ℕ → Option Room
  pub named_rooms : Name → Option ℕ
  pub waiting : List (ℕ × ℕ)
  pub next_room_id : ℕ

-- `hardware` is the number of threads that the machine is said to have.
unfoldable pub new_manager : Board → MotionFactory → Bool → ℕ → Bool → Name → ℕ → RoomManager
unfolding new_scheduler
new_manager b f on_result grace_ms directory url hardware = record {
  board = b;
  factory = f;
  has_on_result = on_result;
  disconnect_grace_ms = grace_ms;
  has_directory = directory;
  self_url = url;
  scheduler = some (new_scheduler 0 hardware);
  rooms = λ id. none;
  named_rooms = λ key. none;
  waiting = [];
  next_room_id = 1;
}

-- Every later call finds no scheduler.
unfoldable pub stop_all : RoomManager → RoomManager
stop_all m = record m { scheduler = none }

-- RoomManager::Seat.
pub record Place : Type 0 where
  pub room : ℕ
  pub color : PieceColor
  pub spectator : Bool
  pub watcher : ℕ

pub data JoinReason : Type 0 where
  no_such_room room_not_active spectator_limit_reached rate_limited : JoinReason

-- A seat, or none with the reason that was reported, if any, or with the url of the owner.
pub data Outcome : Type 0 where
  seated : Place → Outcome
  failed : Option JoinReason → Outcome
  redirected : Name → Outcome

-- What a call does outside the rooms: the effects of a match, and writes to the directory.
pub data RoomEffect : Type 0 where
  of_match : Effect → RoomEffect
  registers : Name → Name → RoomEffect
  forgets : Name → RoomEffect

abbrev pub of_matches : List Effect → List RoomEffect
of_matches effects = map (λ e. of_match e) effects

abbrev pub change {ℓ} : {A : Type ℓ} → (A → A) → Option A → Option A
change f none = none
change f (some a) = some (f a)

-- What is done to one room, if it is there.
unfoldable pub change_room : ℕ → (Room → Room) → RoomManager → RoomManager
change_room id f m = record m { rooms = λ k. if k == id then change f (m.rooms k) else m.rooms k }

abbrev pub count_connection : Room → Room
count_connection r = record r { connected = r.connected + 1 }

abbrev pub count_seat : Room → Room
count_seat r = record r { seats_taken = r.seats_taken + 1; connected = r.connected + 1 }

-- The counts never fall below zero: each `--` gives back what a `++` counted.
abbrev pub discount_connection : Room → Room
discount_connection r = record r { connected = r.connected - 1 }

unfoldable pub with_scheduler : (MatchScheduler → MatchScheduler) → RoomManager → RoomManager
with_scheduler f m = record m { scheduler = change f m.scheduler }
