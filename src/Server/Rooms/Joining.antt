-- ===== src/Server/Rooms/Joining.antt =====
-- room_manager.cpp: the three ways into a room. Each reserves its place under the lock, calls the
-- match outside of it, and takes the reservation back if the match refuses.
use kung_fu_chess.Prelude.{
  ℕ, ◌-◌, Bool, true, false, ◌==◌, leb, if◌then◌else◌, Option, none, some, List, [], ◌∷◌, ◌++◌,
  Result, ok, err, ◌>>=◌, out_of_range,
}
use kung_fu_chess.Model.{PieceColor, white}
use kung_fu_chess.Server.Audience.{Name, SendFn, CloseFn}
use kung_fu_chess.Server.Match.{
  Match, Effect, join, join_spectator, reconnect, reclaimable_seat_for,
}
use kung_fu_chess.Server.Rooms.State.{
  Room, RoomManager, Place, Outcome, seated, failed, redirected, RoomEffect, registers, of_matches,
  no_such_room, room_not_active, spectator_limit_reached, change_room, count_connection, count_seat,
  discount_connection,
}
use kung_fu_chess.Server.Rooms.Waiting.{closest_waiting_room, mark_waiting, unmark_waiting}
use kung_fu_chess.Server.Rooms.Opening.{
  open_room, generate_room_id, name_room, erase_room, stop_ticking,
}

-- What a caller knows of a connection.
pub record Guest : Type 0 where
  pub username : Name
  pub rating : ℕ
  pub send : SendFn
  pub close : CloseFn

abbrev pub match_after {ℓ} : {A : Type ℓ} → A × List Effect × Match → Match
match_after (a, effects, after) = after

abbrev pub change_match : Match → Room → Room
change_match after r = record r { match = after }

-- A call of the match of a room, which is there.
unfoldable pub call_match {ℓ} :
    {A : Type ℓ} → ℕ → A × List Effect × Match → RoomManager → A × List RoomEffect × RoomManager
unfolding change_room
call_match id (answer, effects, after) m =
    (answer, of_matches effects, change_room id (change_match after) m)

abbrev pub player : ℕ → PieceColor → Place
player id color = record { room = id; color = color; spectator = false; watcher = 0 }

abbrev pub watching : ℕ → ℕ → Place
watching id watcher = record { room = id; color = white; spectator = true; watcher = watcher }

-- The reservation of `join_any`: `rooms_.at` throws when the room is not there.
unfoldable pub reserve_found : ℕ → Option Room → RoomManager → Result (ℕ × RoomManager)
unfolding unmark_waiting change_room
reserve_found id none m = err out_of_range
reserve_found id (some r) m =
    ok (id, change_room id count_seat (unmark_waiting id r.waiting_rating m))

abbrev pub rate : ℕ → Room → Room
rate rating r = record r { waiting_rating = rating }

unfoldable pub reserve_any : ℕ → RoomManager → Result (ℕ × RoomManager)
unfolding closest_waiting_room reserve_found open_room mark_waiting change_room
reserve_any rating m = elim (closest_waiting_room rating m.waiting) [
  | some id ↦ reserve_found id (m.rooms id) m
  | none ↦
      let id = m.next_room_id in
      ok (
        id,
        change_room id count_seat
            (mark_waiting id rating (change_room id (rate rating) (open_room [] m))),
      )
]

-- What `join_any` takes back when the match has no seat after all.
unfoldable pub undo_any : ℕ → Option Room → RoomManager → RoomManager
unfolding change_room mark_waiting unmark_waiting erase_room stop_ticking
undo_any id none m = m
undo_any id (some r) m =
    let seats = r.seats_taken - 1 in
    if leb (r.connected - 1) 0
    then stop_ticking id (erase_room id (unmark_waiting id r.waiting_rating m))
    else (let kept =
          change_room id (λ q. record q { seats_taken = seats; connected = r.connected - 1 }) m in
        if seats == 1 then mark_waiting id r.waiting_rating kept else kept)

unfoldable pub settle_any :
    ℕ → Option PieceColor × List RoomEffect × RoomManager → Outcome × List RoomEffect × RoomManager
unfolding undo_any
settle_any id (none, effects, m) = (failed none, effects, undo_any id (m.rooms id) m)
settle_any id (some color, effects, m) = (seated (player id color), effects, m)

-- The match's own `join`, in the room that holds it.
unfoldable pub join_in : ℕ → Guest → RoomManager → Option PieceColor × List RoomEffect × RoomManager
unfolding call_match join
join_in id g m = elim (m.rooms id) [
  | none ↦ (none, [], m)
  | some r ↦ call_match id (join g.username g.rating g.send g.close r.match) m
]

unfoldable pub join_any : Guest → RoomManager → Result (Outcome × List RoomEffect × RoomManager)
unfolding reserve_any join_in settle_any
join_any g m = do
  (id, reserved) ← reserve_any g.rating m
  ok (settle_any id (join_in id g reserved))

unfoldable pub settle_create :
    Name
    → ℕ
    → Option PieceColor × List RoomEffect × RoomManager
    → Outcome × List RoomEffect × RoomManager
settle_create key id (none, effects, m) = (failed (some room_not_active), effects, m)
settle_create key id (some color, effects, m) = (
  seated (player id color),
  effects ++ (if m.has_directory then registers key m.self_url ∷ [] else []),
  m,
)

unfoldable pub create_named : Name → Guest → RoomManager → Outcome × List RoomEffect × RoomManager
unfolding open_room name_room change_room join_in settle_create
create_named key g m =
    let id = m.next_room_id in
    settle_create key id
      (join_in id g (change_room id count_seat (name_room key (some id) (open_room key m))))

unfoldable pub create_room :
    List Name → Guest → RoomManager → Option (Outcome × List RoomEffect × RoomManager)
unfolding generate_room_id create_named
create_room draws g m = elim (generate_room_id draws m.named_rooms) [
  | none ↦ none
  | some key ↦ some (create_named key g m)
]

-- What `join_room` finds and reserves under the lock.
pub data Reservation : Type 0 where
  absent vanished over : Reservation
  reclaims : ℕ → PieceColor → Reservation
  watches : ℕ → Reservation
  plays : ℕ → Reservation

abbrev pub chosen_seat : Option PieceColor → ℕ → Room → Reservation
chosen_seat (some color) id r = reclaims id color
chosen_seat none id r = if leb 2 r.seats_taken then watches id else plays id

unfoldable pub find_room : Name → Option ℕ → RoomManager → Reservation
unfolding reclaimable_seat_for
find_room username none m = absent
find_room username (some id) m = elim (m.rooms id) [
  | none ↦ vanished
  | some r ↦
      if r.match.game_over then over else chosen_seat (reclaimable_seat_for username r.match) id r
]

unfoldable pub reserve : Reservation → RoomManager → RoomManager
unfolding change_room
reserve (reclaims id color) m = change_room id count_connection m
reserve (watches id) m = change_room id count_connection m
reserve (plays id) m = change_room id count_seat m
reserve _ m = m

unfoldable pub rejoin_in :
    ℕ → PieceColor → Guest → RoomManager → Bool × List RoomEffect × RoomManager
unfolding call_match reconnect
rejoin_in id color g m = elim (m.rooms id) [
  | none ↦ (false, [], m)
  | some r ↦ call_match id (reconnect color g.send g.close r.match) m
]

unfoldable pub watch_in : ℕ → Guest → RoomManager → ℕ × List RoomEffect × RoomManager
unfolding call_match join_spectator
watch_in id g m = elim (m.rooms id) [
  | none ↦ (0, [], m)
  | some r ↦ call_match id (join_spectator g.send g.close r.match) m
]

-- After a refusal the connection is given back, but the room is not reaped.
unfoldable pub settle_reclaim :
    ℕ → PieceColor → Bool × List RoomEffect × RoomManager → Outcome × List RoomEffect × RoomManager
unfolding change_room
settle_reclaim id color (true, effects, m) = (seated (player id color), effects, m)
settle_reclaim id color (false, effects, m) =
    (failed (some room_not_active), effects, change_room id discount_connection m)

unfoldable pub settle_watch :
    ℕ → ℕ × List RoomEffect × RoomManager → Outcome × List RoomEffect × RoomManager
unfolding change_room
settle_watch id (watcher, effects, m) =
    if watcher == 0
    then (failed (some spectator_limit_reached), effects, change_room id discount_connection m)
    else (seated (watching id watcher), effects, m)

unfoldable pub settle_play :
    ℕ → Option PieceColor × List RoomEffect × RoomManager → Outcome × List RoomEffect × RoomManager
settle_play id (none, effects, m) = (failed none, effects, m)
settle_play id (some color, effects, m) = (seated (player id color), effects, m)

-- `owner` is what the directory answers for the name.
unfoldable pub settle_absent : Option Name → RoomManager → Outcome
settle_absent (some url) m = if m.has_directory then redirected url else failed (some no_such_room)
settle_absent none m = failed (some no_such_room)

unfoldable pub settle_room :
    Reservation → Option Name → Guest → RoomManager → Outcome × List RoomEffect × RoomManager
unfolding rejoin_in watch_in join_in settle_reclaim settle_watch settle_play settle_absent
settle_room absent owner g m = (settle_absent owner m, [], m)
settle_room vanished owner g m = (failed (some no_such_room), [], m)
settle_room over owner g m = (failed (some room_not_active), [], m)
settle_room (reclaims id color) owner g m = settle_reclaim id color (rejoin_in id color g m)
settle_room (watches id) owner g m = settle_watch id (watch_in id g m)
settle_room (plays id) owner g m = settle_play id (join_in id g m)

unfoldable pub join_room :
    Name → Option Name → Guest → RoomManager → Outcome × List RoomEffect × RoomManager
unfolding find_room reserve settle_room
join_room key owner g m =
    let found = find_room g.username (m.named_rooms key) m in
    settle_room found owner g (reserve found m)
