-- ===== src/Server/Rooms/Leaving.antt =====
-- room_manager.cpp: queueing a command, and a connection that goes away. match_scheduler.cpp's call of
-- a match's tick, in the room that holds it.
use kung_fu_chess.Prelude.{
  ℕ, ◌-◌, leb, if◌then◌else◌, Option, none, some, List, [], ◌∷◌, Result, ok, ◌>>=◌,
}
use kung_fu_chess.Model.{PieceColor}
use kung_fu_chess.Server.Messages.{ClientMessage}
use kung_fu_chess.Server.MatchScheduler.{wake}
use kung_fu_chess.Server.Match.{Match, Effect, wakes, enqueue, on_disconnect, leave_spectator, tick}
use kung_fu_chess.Server.Rooms.State.{
  Room, RoomManager, Place, RoomEffect, of_matches, change_room, discount_connection,
  with_scheduler,
}
use kung_fu_chess.Server.Rooms.Waiting.{unmark_waiting}
use kung_fu_chess.Server.Rooms.Opening.{forget_name, erase_room, stop_ticking, forgetting}
use kung_fu_chess.Server.Rooms.Joining.{change_match}

-- The hook that `open_room` sets: it wakes the match's worker.
unfoldable pub run_hook : ℕ → List Effect → RoomManager → RoomManager
unfolding with_scheduler wake
run_hook id (wakes ∷ effects) m = with_scheduler (wake id) m
run_hook id effects m = m

unfoldable pub queue_in :
    ℕ → PieceColor → ClientMessage → Option Room → RoomManager → List RoomEffect × RoomManager
unfolding enqueue run_hook change_room
queue_in id from message none m = ([], m)
queue_in id from message (some r) m =
    let (effects, after) = enqueue from message r.match in
    (of_matches effects, run_hook id effects (change_room id (change_match after) m))

unfoldable pub enqueue_for :
    ℕ → PieceColor → ClientMessage → RoomManager → List RoomEffect × RoomManager
unfolding queue_in
enqueue_for id from message m = queue_in id from message (m.rooms id) m

unfoldable pub leave_match : Place → Match → Match
unfolding leave_spectator on_disconnect
leave_match p m = if p.spectator then leave_spectator p.watcher m else on_disconnect p.color m

-- The room that loses a connection, and is reaped with its last one.
unfoldable pub discount : ℕ → Option Room → RoomManager → List RoomEffect × RoomManager
unfolding change_room forget_name unmark_waiting erase_room stop_ticking
discount id none m = ([], m)
discount id (some r) m =
    if leb (r.connected - 1) 0
    then (
      forgetting m.has_directory r.name,
      stop_ticking id (erase_room id (unmark_waiting id r.waiting_rating (forget_name r.name m))),
    )
    else ([], change_room id discount_connection m)

unfoldable pub leave_room : Place → Option Room → RoomManager → List RoomEffect × RoomManager
unfolding leave_match change_room discount
leave_room p none m = ([], m)
leave_room p (some r) m =
    let left = change_room p.room (change_match (leave_match p r.match)) m in
    discount p.room (left.rooms p.room) left

-- RoomManager::on_disconnect.
unfoldable pub disconnect : Place → RoomManager → List RoomEffect × RoomManager
unfolding leave_room
disconnect p m = leave_room p (m.rooms p.room) m

unfoldable pub tick_room : ℕ → ℕ → ℕ → RoomManager → Result (List RoomEffect × RoomManager)
unfolding tick change_room
tick_room id now elapsed_ms m = elim (m.rooms id) [
  | none ↦ ok ([], m)
  | some r ↦
      tick now elapsed_ms r.match >>= λ t. ok (of_matches t.0, change_room id (change_match t.1) m)
]
