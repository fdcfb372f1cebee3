-- ===== src/Server/Rooms/Opened.antt =====
-- A room that is opened: its id is new, and its match is given to a worker.
use kung_fu_chess.Prelude.{
  has_value, ℕ, ◌+◌, ◌≤◌, ◌≡◌, refl, ap, ◌∙◌, inl, inr, false, ◌==◌, ==_iff, Bool-cases, Option,
  none, some, List, [], ◌∷◌, ◌∈◌, arith,
}
use kung_fu_chess.Server.Audience.{Name}
use kung_fu_chess.Server.MatchScheduler.{MatchScheduler, add, choose, place_on}
use kung_fu_chess.Server.MatchScheduler.Ownership.{add-Adds}
use kung_fu_chess.Server.Match.Seating.{Seated}
use kung_fu_chess.Server.Match.SeatsKept.{new_match-Seated}
use kung_fu_chess.Server.Rooms.State.{Room, RoomManager, Place, change, with_scheduler}
use kung_fu_chess.Server.Rooms.Waiting.{Entry}
use kung_fu_chess.Server.Rooms.Opening.{room_made, open_room}
use kung_fu_chess.Server.Rooms.Closest.{Rises}
use kung_fu_chess.Server.Rooms.Invariant.{
  count_in, RoomOk, Waits, NamedOk, Scheduled, Kept, Alters, alter-Kept, times_waiting, Fits,
  Either,
}
use kung_fu_chess.Server.Rooms.Staying.{count_in_other}

pub fresh-none : (held : List Place) (m : RoomManager) → Kept held m → m.rooms m.next_room_id ≡ none
fresh-none held m h = free (m.rooms m.next_room_id) (h.rooms_ok m.next_room_id)
  where
    free :
        (o : Option Room)
        → RoomOk m.next_room_id (count_in m.next_room_id held) m.next_room_id o
        → o ≡ none
    free none nobody = refl
    free (some r) (_, _, b, _) = absurd (omega (arith, b))

none_held : (held : List Place) (m : RoomManager) → Kept held m → count_in m.next_room_id held ≡ 0
none_held held m h =
    let ok : RoomOk m.next_room_id (count_in m.next_room_id held) m.next_room_id none =
      rw (fresh-none held m h) at (h.rooms_ok m.next_room_id) in
    ok

pub count_in-le :
    (id : ℕ) (p : Place) (held : List Place) → p ∈ held → p.room ≡ id → 1 ≤ count_in id held
count_in-le id p [] m e = absurd m
count_in-le id p (q ∷ ps) (inl y) e = ground (arith, ap (λ z. z.room) y, ==_iff q.room id)
count_in-le id p (q ∷ ps) (inr y) e = ground (arith, count_in-le id p ps y e)

owners-add :
    (key i : ℕ) (s : MatchScheduler) → (i == key) ≡ false → (add key s).owners i ≡ s.owners i
unfolding add
owners-add key i s n = kept (choose none 0 s.workers)
  where
    kept : (o : Option (ℕ × ℕ)) → (place_on o key s).owners i ≡ s.owners i
    kept none = unfold place_on in refl
    kept (some (chosen, fewest)) = unfold place_on in (simp n refl)

added-Scheduled :
    (id : ℕ) (q : Room) (o : Option MatchScheduler) (m k : RoomManager)
    → m.rooms id ≡ none
    → Alters id (some q) m k
    → Scheduled o m.rooms
    → Scheduled (change (add id) o) k.rooms
added-Scheduled id q none m k e a s = tt
added-Scheduled id q (some t) m k e a (manned, owned) =
    let free : t.owners id ≡ none = unowned (t.owners id) (rw e at (owned id)) in
    let d = add-Adds id t manned free in
    (
      d.manned,
      λ i. elim (Bool-cases (i == id)) [
        | inl y ↦ rw ((==_iff i id).0 y, a.here, d.owned) refl
        | inr n ↦ rw (a.there i n, owners-add id i t n) (owned i)
      ],
    )
  where
    unowned : (o : Option ℕ) → has_value o ≡ false → o ≡ none
    unowned none f = refl
    unowned (some _) f = absurd (cc)

pub open-Kept :
    (q : Room) (p : Place) (held : List Place) (m k : RoomManager)
    → Kept held m
    → Alters m.next_room_id (some q) m k
    → k.next_room_id ≡ m.next_room_id + 1
    → k.scheduler ≡ change (add m.next_room_id) m.scheduler
    → q.connected ≡ 1
    → Seated q.seats_taken q.match
    → p.room ≡ m.next_room_id
    → Fits p (some q)
    → Rises 0 k.waiting
    → ((i : ℕ) → times_waiting i k.waiting ≤ 1)
    → ((e : Entry) → e ∈ k.waiting → Either e.1 m.next_room_id (e ∈ m.waiting) (Waits e.0 (some q)))
    → ((key : Name) (i : ℕ)
        → k.named_rooms key ≡ some i
        → Either i m.next_room_id (m.named_rooms key ≡ some i) (NamedOk key (some q)))
    → Kept (p ∷ held) k
open-Kept q p held m k h a next scheduler one seats here fits rising once waits names =
    let id = m.next_room_id in
    let zero_held = none_held held m h in
    alter-Kept id (some q) held (p ∷ held) m k h a (omega (arith, next))
      (ground (arith, one, zero_held, here), ground (arith, here), omega (arith, next), seats)
      (λ i n. count_in_other i id p held n here) rising once waits names
      (λ x mem. elim mem [
        | inl y ↦ inr (ap (λ z. z.room) y ∙ here, rw y fits)
        | inr y ↦ elim (Bool-cases (x.room == id)) [
          | inl z ↦
              let some_held = count_in-le id x held y ((==_iff x.room id).0 z) in
              absurd (omega (arith, zero_held, some_held))
          | inr n ↦ inl (n, y)
        ]
      ])
      (rw scheduler (added-Scheduled id q m.scheduler m k (fresh-none held m h) a h.scheduled))

-- An entry or a name of before is of another room.
pub old_entry :
    (e : Entry) (held : List Place) (m : RoomManager)
    → Kept held m
    → e ∈ m.waiting
    → (e.1 == m.next_room_id) ≡ false
old_entry e held m h mem = elim (Bool-cases (e.1 == m.next_room_id)) [
  | inl y ↦
      let w : Waits e.0 none =
        rw ((==_iff e.1 m.next_room_id).0 y, fresh-none held m h) at (h.waits e mem) in
      absurd w
  | inr n ↦ n
]

pub old_name :
    (key : Name) (i : ℕ) (held : List Place) (m : RoomManager)
    → Kept held m
    → m.named_rooms key ≡ some i
    → (i == m.next_room_id) ≡ false
old_name key i held m h f = elim (Bool-cases (i == m.next_room_id)) [
  | inl y ↦
      let w : NamedOk key none =
        rw ((==_iff i m.next_room_id).0 y, fresh-none held m h) at (h.names key i f) in
      absurd w
  | inr n ↦ n
]

pub open_room-Alters :
    (name : Name) (m : RoomManager)
    → m.rooms m.next_room_id ≡ none
    → Alters m.next_room_id (some (room_made name m)) m (open_room name m)
unfolding open_room with_scheduler
open_room-Alters name m e = record { here = ground arith; there = λ i n. ground arith }

pub room_made-Seated : (name : Name) (m : RoomManager) → Seated 0 (room_made name m).match
unfolding room_made
room_made-Seated name m =
    new_match-Seated m.board m.factory m.has_on_result m.disconnect_grace_ms 3000 name
