-- ===== src/Server/Rooms/Staying.antt =====
-- The operations that leave a room where it is: a tick, a queued command, and a joining by name.
use kung_fu_chess.Prelude.{
  has_value, ℕ, ◌+◌, ◌≡◌, refl, sym, ap, ◌∙◌, inl, inr, false, ◌==◌, ==_iff, Bool-cases, Option,
  none, some, Option-cases, List, [], ◌∷◌, ok, arith,
}
use kung_fu_chess.Model.{PieceColor}
use kung_fu_chess.Server.Messages.{ClientMessage}
use kung_fu_chess.Server.MatchScheduler.{MatchScheduler, wake, nudge_owner}
use kung_fu_chess.Server.MatchScheduler.Ownership.{wake-IsManned}
use kung_fu_chess.Server.Match.{Match, Effect, wakes, sends, closes, reports, enqueue, tick}
use kung_fu_chess.Server.Match.Seating.{Seated, IfOk, ok-IfOk, bind-IfOk}
use kung_fu_chess.Server.Match.SeatsKept.{enqueue-Seated}
use kung_fu_chess.Server.Match.SeatsTicked.{tick-KeepsSeats}
use kung_fu_chess.Server.Rooms.State.{
  Room, RoomManager, Place, Outcome, seated, RoomEffect, of_matches, change, change_room,
  count_connection, discount_connection, with_scheduler,
}
use kung_fu_chess.Server.Rooms.Joining.{change_match}
use kung_fu_chess.Server.Rooms.Leaving.{run_hook, queue_in, enqueue_for, tick_room}
use kung_fu_chess.Server.Rooms.Invariant.{
  count_in, RoomOk, Fits, Scheduled, Kept, Alters, Alters-trans, change_room-Alters, Stays,
  stay-Kept,
}

pub Scheduled-stay :
    (id : ℕ) (r q : Room) (m k : RoomManager)
    → m.rooms id ≡ some r
    → Alters id (some q) m k
    → k.scheduler ≡ m.scheduler
    → Scheduled m.scheduler m.rooms
    → Scheduled k.scheduler k.rooms
Scheduled-stay id r q m k e a same s = rw same (still m.scheduler s)
  where
    present : (i : ℕ) → has_value (k.rooms i) ≡ has_value (m.rooms i)
    present i = elim (Bool-cases (i == id)) [
      | inl y ↦ rw ((==_iff i id).0 y, a.here, e) refl
      | inr n ↦ rw (a.there i n) refl
    ]

    still : (o : Option MatchScheduler) → Scheduled o m.rooms → Scheduled o k.rooms
    still none s = tt
    still (some t) (manned, owned) = (manned, λ i. owned i ∙ sym (present i))

-- A match that takes the place of a room's match, with as many seats taken.
pub match_changed-Kept :
    (id : ℕ) (r : Room) (after : Match) (held : List Place) (m : RoomManager)
    → Kept held m
    → m.rooms id ≡ some r
    → Seated r.seats_taken after
    → Kept held (change_room id (change_match after) m)
unfolding change_room
match_changed-Kept id r after held m h e s =
    let k = change_room id (change_match after) m in
    let a = change_room-Alters id (change_match after) (some r) m e in
    let (c, l, b, _) : RoomOk m.next_room_id (count_in id held) id (some r) =
      rw e at (h.rooms_ok id) in
    stay-Kept id r (change_match after r) held held m k h e a (refl, refl, refl)
      (refl, refl, omega arith, inl refl) (c, l, b, s) (λ i n. refl) (λ p x. inl x)
      (Scheduled-stay id r (change_match after r) m k e a refl h.scheduled)

pub tick_room-Kept :
    (id now ms : ℕ) (held : List Place) (m : RoomManager)
    → Kept held m
    → IfOk (λ r. Kept held r.1) (tick_room id now ms m)
unfolding tick_room
tick_room-Kept id now ms held m h = elim (Option-cases (m.rooms id)) [
  | inl e ↦ rw (e, tick_room) (ok-IfOk (λ r. Kept held r.1) ([], m) h)
  | inr (r, e) ↦
      let (c, l, b, s) : RoomOk m.next_room_id (count_in id held) id (some r) =
        rw e at (h.rooms_ok id) in
      rw (e, tick_room)
        (bind-IfOk (λ r. Kept held r.1) (tick now ms r.match)
          (λ t. ok (of_matches t.0, change_room id (change_match t.1) m))
          (λ t f.
            ok-IfOk (λ r. Kept held r.1) (of_matches t.0, change_room id (change_match t.1) m)
              (match_changed-Kept id r t.1 held m h e
                (tick-KeepsSeats r.seats_taken now ms r.match s t f))))
]

owners-wake : (key : ℕ) (s : MatchScheduler) → (wake key s).owners ≡ s.owners
unfolding wake
owners-wake key s = same (s.owners key)
  where
    same : (o : Option ℕ) → (nudge_owner o s).owners ≡ s.owners
    same none = unfold nudge_owner in refl
    same (some place) = unfold nudge_owner in refl

woken-Scheduled :
    (id : ℕ) (o : Option MatchScheduler) (rooms : ℕ → Option Room)
    → Scheduled o rooms
    → Scheduled (change (wake id) o) rooms
woken-Scheduled id none rooms s = tt
woken-Scheduled id (some t) rooms (manned, owned) =
    (wake-IsManned id t manned, rw (owners-wake id t) owned)

woken-Kept :
    (id : ℕ) (held : List Place) (m : RoomManager)
    → Kept held m
    → Kept held (with_scheduler (wake id) m)
unfolding with_scheduler
woken-Kept id held m h = record {
  rooms_ok = h.rooms_ok;
  rising = h.rising;
  once = h.once;
  waits = h.waits;
  names = h.names;
  handed = h.handed;
  scheduled = woken-Scheduled id m.scheduler m.rooms h.scheduled;
}

run_hook-Kept :
    (id : ℕ) (effects : List Effect) (held : List Place) (m : RoomManager)
    → Kept held m
    → Kept held (run_hook id effects m)
unfolding run_hook
run_hook-Kept id [] held m h = h
run_hook-Kept id (wakes ∷ effects) held m h = woken-Kept id held m h
run_hook-Kept id (sends _ _ ∷ effects) held m h = h
run_hook-Kept id (closes _ ∷ effects) held m h = h
run_hook-Kept id (reports _ _ _ _ ∷ effects) held m h = h

pub enqueue_for-Kept :
    (id : ℕ) (from : PieceColor) (message : ClientMessage) (held : List Place) (m : RoomManager)
    → Kept held m
    → Kept held (enqueue_for id from message m).1
unfolding enqueue_for queue_in
enqueue_for-Kept id from message held m h = elim (Option-cases (m.rooms id)) [
  | inl e ↦ rw (e, queue_in) h
  | inr (r, e) ↦
      let (c, l, b, s) : RoomOk m.next_room_id (count_in id held) id (some r) =
        rw e at (h.rooms_ok id) in
      rw (e, queue_in)
        (run_hook-Kept id (enqueue from message r.match).0 held _ (
          match_changed-Kept id r (enqueue from message r.match).1 held m h e
            (enqueue-Seated r.seats_taken from message r.match s)))
]

-- The places held after a call that gives one out.
abbrev pub hold : Outcome → List Place → List Place
hold (seated p) held = p ∷ held
hold _ held = held

abbrev pub Handed : List Place → Outcome × List RoomEffect × RoomManager → Type 0
Handed held r = Kept (hold r.0 held) r.2

pub count_in_other :
    (i id : ℕ) (p : Place) (held : List Place)
    → (i == id) ≡ false
    → p.room ≡ id
    → count_in i (p ∷ held) ≡ count_in i held
count_in_other i id p held n e = ground (arith, ==_iff i id, ==_iff p.room i)

-- A connection that comes to a room with a name, and the match that answers it.
abbrev pub Comes : (Room → Room) → Match → Room → Room
Comes f after r = change_match after (f r)

pub comes-Kept :
    (id : ℕ) (f : Room → Room) (after : Match) (p : Place) (r : Room) (held : List Place)
    (m : RoomManager)
    → Kept held m
    → m.rooms id ≡ some r
    → Stays r (Comes f after r)
    → (f r).connected ≡ r.connected + 1
    → Seated (f r).seats_taken after
    → p.room ≡ id
    → Fits p (some (Comes f after r))
    → Kept (p ∷ held) (change_room id (change_match after) (change_room id f m))
unfolding change_room
comes-Kept id f after p r held m h e s one seats here fits =
    let m1 = change_room id f m in
    let k = change_room id (change_match after) m1 in
    let a1 = change_room-Alters id f (some r) m e in
    let a =
      Alters-trans id (some (f r)) (some (Comes f after r)) m m1 k a1
        (change_room-Alters id (change_match after) (some (f r)) m1 a1.here) in
    let (c, l, b, _) : RoomOk m.next_room_id (count_in id held) id (some r) =
      rw e at (h.rooms_ok id) in
    stay-Kept id r (Comes f after r) held (p ∷ held) m k h e a (refl, refl, refl) s
      (ground (arith, one, c, here), ground (arith, here), b, seats)
      (λ i n. count_in_other i id p held n here)
      (λ q x. elim x [ inl y ↦ inr (ap (λ z. z.room) y ∙ here, rw y fits) | inr y ↦ inl y ])
      (Scheduled-stay id r (Comes f after r) m k e a refl h.scheduled)

-- One that is refused, and given back.
pub goes-Kept :
    (id : ℕ) (after : Match) (r : Room) (held : List Place) (m : RoomManager)
    → Kept held m
    → m.rooms id ≡ some r
    → Seated r.seats_taken after
    → Kept held (
        change_room id discount_connection
          (change_room id (change_match after) (change_room id count_connection m)))
unfolding change_room
goes-Kept id after r held m h e seats =
    let m1 = change_room id count_connection m in
    let m2 = change_room id (change_match after) m1 in
    let k = change_room id discount_connection m2 in
    let q1 = Comes count_connection after r in
    let a1 = change_room-Alters id count_connection (some r) m e in
    let a2 =
      Alters-trans id _ (some q1) m m1 m2 a1
        (change_room-Alters id (change_match after) (some (count_connection r)) m1 a1.here) in
    let a =
      Alters-trans id _ (some (discount_connection q1)) m m2 k a2
        (change_room-Alters id discount_connection (some q1) m2 a2.here) in
    let (c, l, b, _) : RoomOk m.next_room_id (count_in id held) id (some r) =
      rw e at (h.rooms_ok id) in
    stay-Kept id r (discount_connection q1) held held m k h e a (refl, refl, refl)
      (refl, refl, omega arith, inl refl) (omega (arith, c), l, b, seats) (λ i n. refl)
      (λ p x. inl x) (Scheduled-stay id r (discount_connection q1) m k e a refl h.scheduled)
