-- ===== src/Server/Rooms/Invariant.antt =====
-- What holds of a RoomManager between its operations, stated with the places that it has handed out
-- and that have not gone away.
use kung_fu_chess.Prelude.{
  has_value, ℕ, ◌+◌, ◌≤◌, ◌<◌, ◌≡◌, ◌≢◌, sym, ◌∙◌, ◌⊎◌, inl, inr, true, false, ◌==◌, ==_iff,
  if◌then◌else◌, Bool-cases, Option, none, some, List, [], ◌∷◌, ◌∈◌, arith,
}
use kung_fu_chess.Model.{PieceColor, white, black}
use kung_fu_chess.Server.Audience.{Name}
use kung_fu_chess.Server.MatchScheduler.{MatchScheduler}
use kung_fu_chess.Server.MatchScheduler.Ownership.{IsManned}
use kung_fu_chess.Server.Match.Seating.{Taken, Seated}
use kung_fu_chess.Server.Rooms.State.{Room, RoomManager, Place, change, change_room}
use kung_fu_chess.Server.Rooms.Waiting.{Entry}
use kung_fu_chess.Server.Rooms.Closest.{Rises}

-- How many of the places are in the room.
abbrev pub count_in : ℕ → List Place → ℕ
count_in id [] = 0
count_in id (p ∷ ps) = if p.room == id then 1 + count_in id ps else count_in id ps

-- How many entries of the waiting list are of the room.
abbrev pub times_waiting : ℕ → List Entry → ℕ
times_waiting id [] = 0
times_waiting id ((r, i) ∷ es) = if i == id then 1 + times_waiting id es else times_waiting id es

-- A room has as many connections as places in it are held, and at least one.
abbrev pub RoomOk : ℕ → ℕ → ℕ → Option Room → Type 0
RoomOk next held id none = held ≡ 0
RoomOk next held id (some r) =
    (r.connected ≡ held) × (1 ≤ held) × (id < next) × Seated r.seats_taken r.match

-- A room that waits has one player, and no name.
abbrev pub Waits : ℕ → Option Room → Type 0
Waits rating none = ⊥
Waits rating (some r) = (r.seats_taken ≡ 1) × (rating ≡ r.waiting_rating) × (r.name ≡ [])

abbrev pub NamedOk : Name → Option Room → Type 0
NamedOk key none = ⊥
NamedOk key (some r) = (r.name ≡ key) × (key ≢ [])

-- A player's place is a seat that is taken.
abbrev pub Fits : Place → Option Room → Type 0
Fits p none = Unit
Fits p (some r) = (p.spectator ≡ true) ⊎ Taken r.seats_taken p.color

-- A scheduler ticks the matches of the rooms, and no others.
abbrev pub Scheduled : Option MatchScheduler → (ℕ → Option Room) → Type 0
Scheduled none rooms = Unit
Scheduled (some s) rooms = IsManned s × ((id : ℕ) → has_value (s.owners id) ≡ has_value (rooms id))

pub record Kept (held : List Place) (m : RoomManager) : Type 0 where
  pub rooms_ok : (id : ℕ) → RoomOk m.next_room_id (count_in id held) id (m.rooms id)
  pub rising : Rises 0 m.waiting
  pub once : (id : ℕ) → times_waiting id m.waiting ≤ 1
  pub waits : (e : Entry) → e ∈ m.waiting → Waits e.0 (m.rooms e.1)
  pub names : (key : Name) (id : ℕ) → m.named_rooms key ≡ some id → NamedOk key (m.rooms id)
  pub handed : (p : Place) → p ∈ held → Fits p (m.rooms p.room)
  pub scheduled : Scheduled m.scheduler m.rooms

-- Two managers whose rooms differ in one id at most.
pub record Alters (id : ℕ) (o : Option Room) (m k : RoomManager) : Type 0 where
  pub here : k.rooms id ≡ o
  pub there : (i : ℕ) → (i == id) ≡ false → k.rooms i ≡ m.rooms i

pub Alters-trans :
    (id : ℕ) (o u : Option Room) (m k n : RoomManager)
    → Alters id o m k
    → Alters id u k n
    → Alters id u m n
Alters-trans id o u m k n a b = record { here = b.here; there = λ i e. b.there i e ∙ a.there i e }

pub change_room-Alters :
    (id : ℕ) (f : Room → Room) (o : Option Room) (m : RoomManager)
    → m.rooms id ≡ o
    → Alters id (change f o) m (change_room id f m)
unfolding change_room
change_room-Alters id f o m e = record { here = ground arith; there = λ i n. ground arith }

RoomOk-le : (n k held id : ℕ) (o : Option Room) → n ≤ k → RoomOk n held id o → RoomOk k held id o
RoomOk-le n k held id none h ok = ok
RoomOk-le n k held id (some r) h (c, l, b, s) = (c, l, omega (arith, b, h), s)

-- Either it is elsewhere and was there before, or it is here.
abbrev pub Either : ℕ → ℕ → Type 0 → Type 0 → Type 0
Either i id Before Now = (((i == id) ≡ false) × Before) ⊎ ((i ≡ id) × Now)

-- The invariant after a change of one room.
pub alter-Kept :
    (id : ℕ) (o : Option Room) (held held' : List Place) (m k : RoomManager)
    → Kept held m
    → Alters id o m k
    → m.next_room_id ≤ k.next_room_id
    → RoomOk k.next_room_id (count_in id held') id o
    → ((i : ℕ) → (i == id) ≡ false → count_in i held' ≡ count_in i held)
    → Rises 0 k.waiting
    → ((i : ℕ) → times_waiting i k.waiting ≤ 1)
    → ((e : Entry) → e ∈ k.waiting → Either e.1 id (e ∈ m.waiting) (Waits e.0 o))
    → ((key : Name) (i : ℕ)
        → k.named_rooms key ≡ some i
        → Either i id (m.named_rooms key ≡ some i) (NamedOk key o))
    → ((p : Place) → p ∈ held' → Either p.room id (p ∈ held) (Fits p o))
    → Scheduled k.scheduler k.rooms
    → Kept held' k
alter-Kept id o held held' m k h a next ok counts rising once waits names handed scheduled =
    record {
      rooms_ok = λ i. elim (Bool-cases (i == id)) [
        | inl e ↦ rw ((==_iff i id).0 e, a.here) ok
        | inr e ↦
            rw (a.there i e, counts i e)
              (RoomOk-le _ _ (count_in i held) i (m.rooms i) next (h.rooms_ok i))
      ];
      rising = rising;
      once = once;
      waits = λ e m. elim (waits e m) [
        | inl (n, b) ↦ rw (a.there e.1 n) (h.waits e b)
        | inr (q, w) ↦ rw (q, a.here) w
      ];
      names = λ key i e. elim (names key i e) [
        | inl (n, b) ↦ rw (a.there i n) (h.names key i b)
        | inr (q, w) ↦ rw (q, a.here) w
      ];
      handed = λ p m. elim (handed p m) [
        | inl (n, b) ↦ rw (a.there p.room n) (h.handed p b)
        | inr (q, w) ↦ rw (q, a.here) w
      ];
      scheduled = scheduled;
    }

-- The books in which rooms are found, and the next id.
abbrev pub SameBooks : RoomManager → RoomManager → Type 0
SameBooks m k =
    (k.next_room_id ≡ m.next_room_id) × (k.waiting ≡ m.waiting) × (k.named_rooms ≡ m.named_rooms)

-- A room that stays in the same books: it may gain a seat only if it has a name.
abbrev pub Stays : Room → Room → Type 0
Stays r q =
    (q.name ≡ r.name)
    × (q.waiting_rating ≡ r.waiting_rating)
    × (r.seats_taken ≤ q.seats_taken)
    × ((q.seats_taken ≡ r.seats_taken) ⊎ (r.name ≢ []))

Stays-Waits : (rating : ℕ) (r q : Room) → Stays r q → Waits rating (some r) → Waits rating (some q)
Stays-Waits rating r q (n, w, _, inl s) (a, b, c) = (s ∙ a, b ∙ sym w, n ∙ c)
Stays-Waits rating r q (n, w, _, inr s) (a, b, c) = absurd (s c)

Taken-le : (n k : ℕ) (color : PieceColor) → n ≤ k → Taken n color → Taken k color
Taken-le n k white h t = omega (arith, h, t)
Taken-le n k black h t = omega (arith, h, t)

pub Fits-le :
    (p : Place) (r q : Room) → r.seats_taken ≤ q.seats_taken → Fits p (some r) → Fits p (some q)
Fits-le p r q l (inl w) = inl w
Fits-le p r q l (inr t) = inr (Taken-le r.seats_taken q.seats_taken p.color l t)

pub stay-Kept :
    (id : ℕ) (r q : Room) (held held' : List Place) (m k : RoomManager)
    → Kept held m
    → m.rooms id ≡ some r
    → Alters id (some q) m k
    → SameBooks m k
    → Stays r q
    → RoomOk m.next_room_id (count_in id held') id (some q)
    → ((i : ℕ) → (i == id) ≡ false → count_in i held' ≡ count_in i held)
    → ((p : Place) → p ∈ held' → (p ∈ held) ⊎ ((p.room ≡ id) × Fits p (some q)))
    → Scheduled k.scheduler k.rooms
    → Kept held' k
stay-Kept id r q held held' m k h e a (b, c, d) s ok counts handed scheduled =
    alter-Kept id (some q) held held' m k h a (omega (arith, b)) (rw b ok) counts (rw c h.rising)
      (λ i. rw c (h.once i))
      (λ w mem.
        let before : w ∈ m.waiting = rw c at mem in
        elim (Bool-cases (w.1 == id)) [
          | inl y ↦
              let same = (==_iff w.1 id).0 y in
              inr (same, Stays-Waits w.0 r q s (rw (same, e) at (h.waits w before)))
          | inr n ↦ inl (n, before)
        ])
      (λ key i f.
        let before : m.named_rooms key ≡ some i = rw d at f in
        elim (Bool-cases (i == id)) [
          | inl y ↦
              let same = (==_iff i id).0 y in
              let (u, v) : NamedOk key (some r) = rw (same, e) at (h.names key i before) in
              inr (same, (s.0 ∙ u, v))
          | inr n ↦ inl (n, before)
        ])
      (λ p mem. elim (handed p mem) [
        | inl before ↦ elim (Bool-cases (p.room == id)) [
          | inl y ↦
              let same = (==_iff p.room id).0 y in
              inr (same, Fits-le p r q s.2 (rw (same, e) at (h.handed p before)))
          | inr n ↦ inl (n, before)
        ]
        | inr now ↦ inr now
      ])
      scheduled
