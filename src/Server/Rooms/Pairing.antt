-- ===== src/Server/Rooms/Pairing.antt =====
-- `join_any`: a waiting room takes its second player, or a new room is opened and waits.
use kung_fu_chess.Prelude.{
  ℕ, ◌+◌, ◌<◌, ◌≡◌, refl, ◌⊎◌, inl, inr, true, some, Option-cases, List, [], ◌∷◌, Returns, arith,
}
use kung_fu_chess.Server.Match.{Match, join}
use kung_fu_chess.Server.Match.Seating.{Seated, Taken}
use kung_fu_chess.Server.Match.SeatsKept.{join-Sits}
use kung_fu_chess.Server.Rooms.State.{
  Room, RoomManager, Place, Outcome, seated, RoomEffect, change_room, count_seat,
}
use kung_fu_chess.Server.Rooms.Waiting.{closest_waiting_room, mark_waiting, unmark_waiting}
use kung_fu_chess.Server.Rooms.Opening.{room_made, open_room}
use kung_fu_chess.Server.Rooms.Joining.{
  Guest, change_match, call_match, player, join_in, rate, reserve_found, reserve_any, settle_any,
  join_any,
}
use kung_fu_chess.Server.Rooms.Invariant.{count_in, RoomOk, Kept, change_room-Alters}
use kung_fu_chess.Server.Rooms.ByName.{join_in-at}
use kung_fu_chess.Server.Rooms.Opened.{fresh-none, open_room-Alters, room_made-Seated}
use kung_fu_chess.Server.Rooms.Reserved.{closest-Found, unmark-Alters, second-Kept, first-Kept}

-- A seat was given, and everything is as it should be with it.
abbrev pub Seats : List Place → Outcome × List RoomEffect × RoomManager → Type 0
Seats held r = (p : Place) × (r.0 ≡ seated p) × Kept (p ∷ held) r.2

-- The match's answer, where the room with its reservation is.
settled-Seats :
    (id : ℕ) (g : Guest) (r : Room) (n : ℕ) (held : List Place) (m : RoomManager)
    → m.rooms id ≡ some r
    → n < 2
    → Seated n r.match
    → ((after : Match) (p : Place)
        → Seated (n + 1) after
        → p.room ≡ id
        → (p.spectator ≡ true) ⊎ Taken (n + 1) p.color
        → Kept (p ∷ held) (change_room id (change_match after) m))
    → Seats held (settle_any id (join_in id g m))
unfolding settle_any call_match
settled-Seats id g r n held m e few s kept =
    let j = join-Sits n g.username g.rating g.send g.close r.match few s in
    rw (join_in-at id g r m e) (
      simp j.given (
        player id j.color,
        refl,
        kept (join g.username g.rating g.send g.close r.match).2 (player id j.color) j.seated refl
            (inr j.taken),
      ))

paired-Seats :
    (id : ℕ) (g : Guest) (r : Room) (held : List Place) (m : RoomManager)
    → Kept held m
    → m.rooms id ≡ some r
    → r.seats_taken ≡ 1
    → r.name ≡ []
    → Seats held (
        settle_any id
          (join_in id g (change_room id count_seat (unmark_waiting id r.waiting_rating m))))
paired-Seats id g r held m h e one nameless =
    let m1 = unmark_waiting id r.waiting_rating m in
    let m2 = change_room id count_seat m1 in
    let a1 = unmark-Alters id r.waiting_rating r m e in
    let a2 = change_room-Alters id count_seat (some r) m1 a1.here in
    let (c, l, b, s) : RoomOk m.next_room_id (count_in id held) id (some r) =
      rw e at (h.rooms_ok id) in
    settled-Seats id g (count_seat r) r.seats_taken held m2 a2.here (omega (arith, one)) s
      (λ after p seats here fits. second-Kept id after p r held m h e nameless seats here fits)

opened-Seats :
    (g : Guest) (held : List Place) (m : RoomManager)
    → Kept held m
    → Seats held (
        settle_any m.next_room_id (
          join_in m.next_room_id g (
            change_room m.next_room_id count_seat (
              mark_waiting m.next_room_id g.rating
                (change_room m.next_room_id (rate g.rating) (open_room [] m))))))
unfolding mark_waiting room_made
opened-Seats g held m h =
    let id = m.next_room_id in
    let q0 = room_made [] m in
    let m1 = open_room [] m in
    let m2 = change_room id (rate g.rating) m1 in
    let m3 = mark_waiting id g.rating m2 in
    let m4 = change_room id count_seat m3 in
    let a1 = open_room-Alters [] m (fresh-none held m h) in
    let a2 = change_room-Alters id (rate g.rating) (some q0) m1 a1.here in
    let a4 = change_room-Alters id count_seat (some (rate g.rating q0)) m3 a2.here in
    settled-Seats id g (count_seat (rate g.rating q0)) 0 held m4 a4.here (omega arith)
      (room_made-Seated [] m)
      (λ after p seats here fits. first-Kept after g.rating p held m h seats here fits)

-- `join_any` between any operations returns and gives a seat: neither `rooms_.at` throws nor does the match
-- refuse, and the rooms are as they should be with the new place.
pub join_any-Seats :
    (g : Guest) (held : List Place) (m : RoomManager)
    → Kept held m
    → Returns (λ r. Seats held r) (join_any g m)
unfolding join_any reserve_any reserve_found
join_any-Seats g held m h = elim (Option-cases (closest_waiting_room g.rating m.waiting)) [
  | inl e ↦ rw (e, reserve_any) (_, refl, opened-Seats g held m h)
  | inr (id, e) ↦
      let (r, f, one, nameless) = closest-Found g.rating id held m h e in
      rw (e, f, reserve_any, reserve_found) (_, refl, paired-Seats id g r held m h f one nameless)
]
