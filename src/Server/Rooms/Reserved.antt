-- ===== src/Server/Rooms/Reserved.antt =====
-- The place that `join_any` reserves (server/src/kfc/server/room_manager.cpp): the one in a room that waits, or the
-- first of a new room.
use kung_fu_chess.Prelude.{
  ℕ, ◌+◌, ◌≡◌, refl, sym, ap, ◌∙◌, subst, inl, inr, ◌==◌, ==_iff, Bool-cases, Option, none, some,
  List, [], ◌∷◌, arith,
}
use kung_fu_chess.Server.Match.{Match}
use kung_fu_chess.Server.Match.Seating.{Seated}
use kung_fu_chess.Server.Rooms.State.{
  Room, RoomManager, Place, change_room, count_seat, with_scheduler,
}
use kung_fu_chess.Server.Rooms.Waiting.{
  nearest, closest_waiting_room, room_of, mark_waiting, unmark_waiting,
}
use kung_fu_chess.Server.Rooms.Opening.{room_made, open_room}
use kung_fu_chess.Server.Rooms.Joining.{change_match, rate}
use kung_fu_chess.Server.Rooms.Closest.{IsEntry, nearest-IsSmallest}
use kung_fu_chess.Server.Rooms.Invariant.{
  Fits-le, count_in, RoomOk, Waits, NamedOk, Kept, Alters, Alters-trans, change_room-Alters,
  alter-Kept, Fits,
}
use kung_fu_chess.Server.Rooms.Entries.{
  Rises-emplace, times-emplace, of_emplace, Rises-erase_entry, of_erase_entry, times-erase_entry,
  erased, not_waiting,
}
use kung_fu_chess.Server.Rooms.Staying.{Scheduled-stay, Comes, count_in_other}
use kung_fu_chess.Server.Rooms.Opened.{fresh-none, open-Kept, old_entry, old_name, open_room-Alters}

-- A room that is found waits.
abbrev pub Found : RoomManager → ℕ → Type 0
Found m id = (r : Room) × (m.rooms id ≡ some r) × (r.seats_taken ≡ 1) × (r.name ≡ [])

Waits-Found :
    (rating id : ℕ) (o : Option Room) (m : RoomManager)
    → m.rooms id ≡ o
    → Waits rating o
    → Found m id
Waits-Found rating id none m e w = absurd w
Waits-Found rating id (some r) m e (s, _, n) = (r, e, s, n)

pub closest-Found :
    (rating id : ℕ) (held : List Place) (m : RoomManager)
    → Kept held m
    → closest_waiting_room rating m.waiting ≡ some id
    → Found m id
closest-Found rating id held m h e =
    let (_, entry, same) = nearest-IsSmallest rating m.waiting h.rising in
    of_entry (nearest rating m.waiting) (sym same ∙ e) entry
  where
    of_entry : (o : Option (ℕ × ℕ)) → room_of o ≡ some id → IsEntry rating m.waiting o → Found m id
    of_entry none f w = absurd (cc)
    of_entry (some (gap, room)) f (r, mem, _, _) =
        subst (λ i. Found m i) (cc)
          (Waits-Found r room (m.rooms room) m refl (h.waits (r, room) mem))

pub unmark-Alters :
    (id rating : ℕ) (r : Room) (m : RoomManager)
    → m.rooms id ≡ some r
    → Alters id (some r) m (unmark_waiting id rating m)
unfolding unmark_waiting
unmark-Alters id rating r m e = record { here = e; there = λ i n. refl }

-- The second player's room waits no more.
pub second-Kept :
    (id : ℕ) (after : Match) (p : Place) (r : Room) (held : List Place) (m : RoomManager)
    → Kept held m
    → m.rooms id ≡ some r
    → r.name ≡ []
    → Seated (r.seats_taken + 1) after
    → p.room ≡ id
    → Fits p (some (Comes count_seat after r))
    → Kept (p ∷ held) (
        change_room id
          (change_match after)
          (change_room id count_seat (unmark_waiting id r.waiting_rating m)))
unfolding change_room unmark_waiting
second-Kept id after p r held m h e nameless seats here fits =
    let m1 = unmark_waiting id r.waiting_rating m in
    let m2 = change_room id count_seat m1 in
    let k = change_room id (change_match after) m2 in
    let a1 = unmark-Alters id r.waiting_rating r m e in
    let a2 =
      Alters-trans id _ (some (count_seat r)) m m1 m2 a1
        (change_room-Alters id count_seat (some r) m1 a1.here) in
    let a =
      Alters-trans id _ (some (Comes count_seat after r)) m m2 k a2
        (change_room-Alters id (change_match after) (some (count_seat r)) m2 a2.here) in
    let (c, l, b, _) : RoomOk m.next_room_id (count_in id held) id (some r) =
      rw e at (h.rooms_ok id) in
    alter-Kept id (some (Comes count_seat after r)) held (p ∷ held) m k h a (omega arith)
      (ground (arith, c, here), ground (arith, here), b, seats)
      (λ i n. count_in_other i id p held n here)
      (Rises-erase_entry 0 r.waiting_rating id m.waiting h.rising)
      (λ i. omega (arith, times-erase_entry i r.waiting_rating id m.waiting, h.once i))
      (λ w mem. inl (
        erased r.waiting_rating id m.waiting w
            (λ d x q. let (_, y, _) : Waits d.0 (some r) = rw (q, e) at (h.waits d x) in y)
            (h.once id) mem,
        of_erase_entry w r.waiting_rating id m.waiting mem,
      ))
      (λ key i f. elim (Bool-cases (i == id)) [
        | inl y ↦
            let (u, v) : NamedOk key (some r) = rw ((==_iff i id).0 y, e) at (h.names key i f) in
            absurd (v (sym u ∙ nameless))
        | inr n ↦ inl (n, f)
      ])
      (λ q x. elim x [
        | inl y ↦ inr (ap (λ z. z.room) y ∙ here, rw y fits)
        | inr y ↦ elim (Bool-cases (q.room == id)) [
          | inl z ↦ inr (
            (==_iff q.room id).0 z,
            Fits-le q r (Comes count_seat after r) (omega arith)
                (rw ((==_iff q.room id).0 z, e) at (h.handed q y)),
          )
          | inr n ↦ inl (n, y)
        ]
      ])
      (Scheduled-stay id r (Comes count_seat after r) m k e a refl h.scheduled)

-- A new room waits at its player's rating.
pub first-Kept :
    (after : Match) (rating : ℕ) (p : Place) (held : List Place) (m : RoomManager)
    → Kept held m
    → Seated 1 after
    → p.room ≡ m.next_room_id
    → Fits p (some (change_match after (count_seat (rate rating (room_made [] m)))))
    → Kept (p ∷ held) (
        change_room m.next_room_id (change_match after) (
          change_room m.next_room_id count_seat (
            mark_waiting m.next_room_id rating
              (change_room m.next_room_id (rate rating) (open_room [] m)))))
unfolding change_room mark_waiting open_room with_scheduler room_made
first-Kept after rating p held m h seats here fits =
    let id = m.next_room_id in
    let q0 = room_made [] m in
    let m1 = open_room [] m in
    let m2 = change_room id (rate rating) m1 in
    let m3 = mark_waiting id rating m2 in
    let m4 = change_room id count_seat m3 in
    let k = change_room id (change_match after) m4 in
    let q = change_match after (count_seat (rate rating q0)) in
    let a1 = open_room-Alters [] m (fresh-none held m h) in
    let a2 =
      Alters-trans id _ (some (rate rating q0)) m m1 m2 a1
        (change_room-Alters id (rate rating) (some q0) m1 a1.here) in
    let a3 =
      Alters-trans id _ (some (rate rating q0)) m m2 m3 a2
        (record { here = a2.here; there = λ i n. refl }) in
    let a4 =
      Alters-trans id _ (some (count_seat (rate rating q0))) m m3 m4 a3
        (change_room-Alters id count_seat (some (rate rating q0)) m3 a3.here) in
    let a = Alters-trans id _ (some q) m m4 k a4 (
      change_room-Alters id (change_match after) (some (count_seat (rate rating q0))) m4 a4.here) in
    open-Kept q p held m k h a refl refl refl seats here fits
      (Rises-emplace 0 rating id m.waiting (omega arith) h.rising)
      (λ i. ground (
        arith,
        times-emplace i rating id m.waiting,
        h.once i,
        not_waiting id m.waiting (λ e mem. old_entry e held m h mem),
      ))
      (λ e mem. elim (of_emplace e rating id m.waiting mem) [
        | inl y ↦ inr (ap (λ z. z.1) y, (refl, ap (λ z. z.0) y, refl))
        | inr y ↦ inl (old_entry e held m h y, y)
      ])
      (λ key i f. inl (old_name key i held m h f, f))
