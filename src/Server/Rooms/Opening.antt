-- ===== src/Server/Rooms/Opening.antt =====
-- room_manager.cpp: how a room is opened, named and reaped.
use kung_fu_chess.Prelude.{
  string_eq, ℕ, ◌+◌, Bool, true, false, ◌==◌, if◌then◌else◌, Option, none, some, List, [], ◌∷◌,
}
use kung_fu_chess.Server.Audience.{Name}
use kung_fu_chess.Server.MatchScheduler.{add, remove}
use kung_fu_chess.Server.Match.{new_match, set_wake_hook}
use kung_fu_chess.Server.Rooms.State.{Room, RoomManager, RoomEffect, forgets, with_scheduler}

-- match.hpp, kDefaultReleaseDelayMs.
abbrev pub default_release_delay_ms : ℕ
default_release_delay_ms = 3000

unfoldable pub room_made : Name → RoomManager → Room
unfolding new_match set_wake_hook
room_made name m = record {
  match = set_wake_hook (
      new_match m.board m.factory m.has_on_result m.disconnect_grace_ms default_release_delay_ms
        name);
  seats_taken = 0;
  connected = 0;
  waiting_rating = 0;
  name = name;
}

-- map::emplace, which leaves a room alone that is there.
abbrev pub or_new : Option Room → Room → Option Room
or_new none r = some r
or_new (some old) r = some old

-- The id is the manager's next one before the call.
unfoldable pub open_room : Name → RoomManager → RoomManager
unfolding room_made with_scheduler add
open_room name m = with_scheduler (add m.next_room_id) (record m {
  next_room_id = m.next_room_id + 1;
  rooms = λ k. if k == m.next_room_id then or_new (m.rooms k) (room_made name m) else m.rooms k;
})

abbrev pub is_free : Option ℕ → Bool
is_free none = true
is_free (some id) = false

-- `draws` are the ids that the generator draws, one after another; none is returned only when the list
-- ends before a free one, where the source goes on drawing.
unfoldable pub generate_room_id : List Name → (Name → Option ℕ) → Option Name
generate_room_id [] named = none
generate_room_id (key ∷ draws) named =
    let rest = generate_room_id draws named in if is_free (named key) then some key else rest

unfoldable pub name_room : Name → Option ℕ → RoomManager → RoomManager
unfolding string_eq
name_room key id m = record m { named_rooms = λ k. if string_eq key k then id else m.named_rooms k }

unfoldable pub forget_name : Name → RoomManager → RoomManager
unfolding name_room
forget_name [] m = m
forget_name (c ∷ cs) m = name_room (c ∷ cs) none m

unfoldable pub erase_room : ℕ → RoomManager → RoomManager
erase_room id m = record m { rooms = λ k. if k == id then none else m.rooms k }

unfoldable pub stop_ticking : ℕ → RoomManager → RoomManager
unfolding with_scheduler remove
stop_ticking id m = with_scheduler (remove id) m

abbrev pub forgetting : Bool → Name → List RoomEffect
forgetting false name = []
forgetting true [] = []
forgetting true (c ∷ cs) = forgets (c ∷ cs) ∷ []
