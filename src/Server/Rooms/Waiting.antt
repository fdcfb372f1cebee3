-- ===== src/Server/Rooms/Waiting.antt =====
-- room_manager.cpp: the rooms that wait for a second player, in the order of their ratings.
use kung_fu_chess.Prelude.{ℕ, ◌-◌, ◌==◌, ltb, leb, if◌then◌else◌, Option, none, some, List, [], ◌∷◌}
use kung_fu_chess.Server.Rooms.State.{RoomManager}

-- database/elo.hpp, kMatchmakingRatingGap.
abbrev pub matchmaking_rating_gap : ℕ
matchmaking_rating_gap = 100

unfoldable pub gap_of : ℕ → ℕ → ℕ
gap_of a b = if ltb a b then b - a else a - b

-- An entry of the multimap is a rating and a room.
abbrev pub Entry : Type 0
Entry = ℕ × ℕ

-- The lambda of `closest_waiting_room`: `best` is a gap and a room, and `end()` is none.
unfoldable pub consider : ℕ → Option Entry → Option (ℕ × ℕ) → Option (ℕ × ℕ)
unfolding gap_of
consider rating none best = best
consider rating (some (r, id)) none =
    if leb (gap_of r rating) matchmaking_rating_gap then some (gap_of r rating, id) else none
consider rating (some (r, id)) (some (gap, room)) =
    if leb (gap_of r rating) matchmaking_rating_gap
    then (if ltb (gap_of r rating) gap then some (gap_of r rating, id) else some (gap, room))
    else some (gap, room)

-- The entry before lower_bound(rating), if it is not begin(), and the one there, if it is not end().
unfoldable pub around : ℕ → Option Entry → List Entry → Option Entry × Option Entry
around rating before [] = (before, none)
around rating before ((r, id) ∷ es) =
    let later = around rating (some (r, id)) es in
    if leb rating r then (before, some (r, id)) else later

abbrev pub room_of : Option (ℕ × ℕ) → Option ℕ
room_of none = none
room_of (some (gap, room)) = some room

-- `best` at the end of `closest_waiting_room`.
unfoldable pub nearest : ℕ → List Entry → Option (ℕ × ℕ)
unfolding consider around
nearest rating es =
    let (before, lower) = around rating none es in
    consider rating before (consider rating lower none)

unfoldable pub closest_waiting_room : ℕ → List Entry → Option ℕ
unfolding nearest
closest_waiting_room rating es = room_of (nearest rating es)

-- multimap::emplace: behind the entries of its rating.
unfoldable pub emplace : ℕ → ℕ → List Entry → List Entry
emplace rating id [] = (rating, id) ∷ []
emplace rating id ((r, i) ∷ es) =
    let rest = emplace rating id es in
    if ltb rating r then (rating, id) ∷ (r, i) ∷ es else (r, i) ∷ rest

-- The first entry of that rating and that room.
unfoldable pub erase_entry : ℕ → ℕ → List Entry → List Entry
erase_entry rating id [] = []
erase_entry rating id ((r, i) ∷ es) =
    let rest = erase_entry rating id es in
    if r == rating then (if i == id then es else (r, i) ∷ rest) else (r, i) ∷ rest

unfoldable pub mark_waiting : ℕ → ℕ → RoomManager → RoomManager
unfolding emplace
mark_waiting id rating m = record m { waiting = emplace rating id m.waiting }

unfoldable pub unmark_waiting : ℕ → ℕ → RoomManager → RoomManager
unfolding erase_entry
unmark_waiting id rating m = record m { waiting = erase_entry rating id m.waiting }
