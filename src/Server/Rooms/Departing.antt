-- ===== src/Server/Rooms/Departing.antt =====
-- `on_disconnect`: a room loses a connection, and goes with its last one.
use kung_fu_chess.Prelude.{
  ℕ, ◌+◌, ◌-◌, ◌≤◌, ◌<◌, ◌≡◌, refl, inl, inr, false, ◌==◌, ==_iff, leb, Bool-cases, Option, none,
  some, Option-cases, List, ◌∈◌, arith,
}
use kung_fu_chess.Server.Rooms.State.{
  Room, RoomManager, Place, change_room, with_scheduler, discount_connection,
}
use kung_fu_chess.Server.Rooms.Waiting.{erase_entry, unmark_waiting}
use kung_fu_chess.Server.Rooms.Joining.{change_match}
use kung_fu_chess.Server.Rooms.Invariant.{
  count_in, RoomOk, Waits, NamedOk, Kept, change_room-Alters, alter-Kept, Fits, stay-Kept,
}
use kung_fu_chess.Server.Rooms.Entries.{
  Rises-erase_entry, of_erase_entry, times-erase_entry, erased,
}
use kung_fu_chess.Server.Rooms.Staying.{match_changed-Kept, Scheduled-stay}
use kung_fu_chess.Server.Rooms.Opened.{count_in-le}
use kung_fu_chess.Server.Rooms.Opening.{erase_room, stop_ticking}
use kung_fu_chess.Server.Rooms.Leaving.{leave_match, discount, leave_room, disconnect}
use kung_fu_chess.Server.Rooms.Removing.{
  remove_at, Given, Given-∈, count-remove_at, of_remove_at, leave_match-Seated, forget-frame,
  forgotten, removed-Scheduled, reaped, reaped-Alters,
}

module _ (i : ℕ) (p : Place) (held : List Place) (m : RoomManager) (h : Kept held m)
    (given : Given i p held) where
  abbrev id : ℕ
  id = p.room

  count_after : (k : ℕ) → (k == id) ≡ false → count_in k (remove_at i held) ≡ count_in k held
  count_after k n = ground (arith, count-remove_at i k p held given, ==_iff p.room k)

  count_here : count_in id held ≡ 1 + count_in id (remove_at i held)
  count_here = ground (arith, count-remove_at i id p held given, ==_iff p.room p.room)

  reaped-Kept :
      (r : Room) → m.rooms id ≡ some r → r.connected ≤ 1 → Kept (remove_at i held) (reaped id r m)
  unfolding reaped stop_ticking erase_room unmark_waiting with_scheduler
  reaped-Kept r e last =
      let (c, l, b, s) : RoomOk m.next_room_id (count_in id held) id (some r) =
        rw e at (h.rooms_ok id) in
      let k = reaped id r m in
      let a = reaped-Alters id r m in
      let (_, same_waiting, same_scheduler, same_next) = forget-frame r.name m in
      let nobody : count_in id (remove_at i held) ≡ 0 = omega (arith, c, l, last, count_here) in
      alter-Kept id none held (remove_at i held) m k h a (omega (arith, same_next)) nobody
        count_after (rw same_waiting (Rises-erase_entry 0 r.waiting_rating id m.waiting h.rising))
        (λ j.
          rw same_waiting
            (omega (arith, times-erase_entry j r.waiting_rating id m.waiting, h.once j)))
        (λ w mem.
          let found : w ∈ erase_entry r.waiting_rating id m.waiting = rw same_waiting at mem in
          inl (
            erased r.waiting_rating id m.waiting w
                (λ d x q. let (_, y, _) : Waits d.0 (some r) = rw (q, e) at (h.waits d x) in y)
                (h.once id) found,
            of_erase_entry w r.waiting_rating id m.waiting found,
          ))
        (λ key j f.
          let (before, lost) = forgotten r.name key j m f in
          elim (Bool-cases (j == id)) [
            | inl y ↦
                let (u, v) : NamedOk key (some r) =
                  rw ((==_iff j id).0 y, e) at (h.names key j before) in
                absurd (lost u v)
            | inr n ↦ inl (n, before)
          ])
        (λ q mem. elim (Bool-cases (q.room == id)) [
          | inl y ↦
              let some_left = count_in-le id q (remove_at i held) mem ((==_iff q.room id).0 y) in
              absurd (omega (arith, nobody, some_left))
          | inr n ↦ inl (n, of_remove_at i q held mem)
        ])
        (rw same_scheduler (removed-Scheduled id m.scheduler m k a h.scheduled))

  fewer-Kept :
      (r : Room)
      → m.rooms id ≡ some r
      → 1 < r.connected
      → Kept (remove_at i held) (change_room id discount_connection m)
  unfolding change_room
  fewer-Kept r e more =
      let (c, l, b, s) : RoomOk m.next_room_id (count_in id held) id (some r) =
        rw e at (h.rooms_ok id) in
      let k = change_room id discount_connection m in
      let a = change_room-Alters id discount_connection (some r) m e in
      stay-Kept id r (discount_connection r) held (remove_at i held) m k h e a (refl, refl, refl)
        (refl, refl, omega arith, inl refl)
        (omega (arith, c, count_here), omega (arith, c, count_here, more), b, s) count_after
        (λ q mem. inl (of_remove_at i q held mem))
        (Scheduled-stay id r (discount_connection r) m k e a refl h.scheduled)

  discount-Kept : (o : Option Room) → m.rooms id ≡ o → Kept (remove_at i held) (discount id o m).1
  unfolding discount reaped
  discount-Kept none e =
      let nobody : count_in id held ≡ 0 = rw e at (h.rooms_ok id) in
      absurd (omega (arith, nobody, count_here))
  discount-Kept (some r) e = elim (Bool-cases (leb (r.connected - 1) 0)) [
    | inl last ↦ simp last (reaped-Kept r e (ground arith))
    | inr more ↦ simp more (fewer-Kept r e (ground arith))
  ]

-- `on_disconnect` of a place that is held.
pub disconnect-Kept :
    (i : ℕ) (p : Place) (held : List Place) (m : RoomManager)
    → Kept held m
    → Given i p held
    → Kept (remove_at i held) (disconnect p m).1
unfolding disconnect leave_room
disconnect-Kept i p held m h given = elim (Option-cases (m.rooms p.room)) [
  | inl e ↦
      let nobody : count_in p.room held ≡ 0 = rw e at (h.rooms_ok p.room) in
      absurd (omega (arith, nobody, count_here i p held m h given))
  | inr (r, e) ↦
      let (c, l, b, s) : RoomOk m.next_room_id (count_in p.room held) p.room (some r) =
        rw e at (h.rooms_ok p.room) in
      let fits : Fits p (some r) = rw e at (h.handed p (Given-∈ i p held given)) in
      let left = change_room p.room (change_match (leave_match p r.match)) m in
      let kept =
        match_changed-Kept p.room r (leave_match p r.match) held m h e
          (leave_match-Seated r.seats_taken p r.match fits s) in
      rw (e, leave_room) (discount-Kept i p held left kept given (left.rooms p.room) refl)
]
