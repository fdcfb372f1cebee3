-- ===== src/Server/Rooms/Naming.antt =====
-- `create_room`: the room that is opened has a name of its own.
use kung_fu_chess.Prelude.{
  string_eq, string_eq_lem, ℕ, ◌≡◌, ◌≢◌, refl, ◌∙◌, ◌⊎◌, inl, inr, true, false, Bool-cases, Option,
  none, some, List, [], ◌∷◌, ◌∈◌, All, arith,
}
use kung_fu_chess.Server.Audience.{Name}
use kung_fu_chess.Server.Match.{Match, join}
use kung_fu_chess.Server.Match.Seating.{Seated, Taken}
use kung_fu_chess.Server.Match.SeatsKept.{join-Sits}
use kung_fu_chess.Server.Rooms.State.{
  Room, RoomManager, Place, Outcome, RoomEffect, change_room, count_seat, with_scheduler,
}
use kung_fu_chess.Server.Rooms.Opening.{room_made, open_room, name_room, generate_room_id, is_free}
use kung_fu_chess.Server.Rooms.Joining.{
  Guest, change_match, call_match, player, settle_create, create_named, create_room,
}
use kung_fu_chess.Server.Rooms.Invariant.{Kept, Alters-trans, change_room-Alters}
use kung_fu_chess.Server.Rooms.ByName.{join_in-at}
use kung_fu_chess.Server.Rooms.Opened.{
  fresh-none, open-Kept, old_entry, old_name, open_room-Alters, room_made-Seated,
}
use kung_fu_chess.Server.Rooms.Pairing.{Seats}

module _ (key : Name) (after : Match) (p : Place) (held : List Place) (m : RoomManager)
    (h : Kept held m) where
  abbrev made : Room
  made = change_match after (count_seat (room_made key m))

  named-Kept :
      key ≢ []
      → Seated 1 after
      → p.room ≡ m.next_room_id
      → (p.spectator ≡ true) ⊎ Taken 1 p.color
      → Kept (p ∷ held) (
          change_room m.next_room_id (change_match after) (
            change_room m.next_room_id count_seat
              (name_room key (some m.next_room_id) (open_room key m))))
  unfolding change_room name_room open_room with_scheduler room_made
  named-Kept some_key seats here fits =
      let id = m.next_room_id in
      let q0 = room_made key m in
      let m1 = open_room key m in
      let m2 = name_room key (some id) m1 in
      let m3 = change_room id count_seat m2 in
      let k = change_room id (change_match after) m3 in
      let a1 = open_room-Alters key m (fresh-none held m h) in
      let a2 =
        Alters-trans id _ (some q0) m m1 m2 a1 (record { here = a1.here; there = λ i n. refl }) in
      let a3 =
        Alters-trans id _ (some (count_seat q0)) m m2 m3 a2
          (change_room-Alters id count_seat (some q0) m2 a2.here) in
      let a =
        Alters-trans id _ (some made) m m3 k a3
          (change_room-Alters id (change_match after) (some (count_seat q0)) m3 a3.here) in
      open-Kept made p held m k h a refl refl refl seats here fits h.rising h.once
        (λ e mem. inl (old_entry e held m h mem, mem))
        (λ other i f. elim (Bool-cases (string_eq key other)) [
          | inl same ↦
              let e = string_eq_lem key other same in
              let now : some id ≡ some i = simp same at f in inr (cc, (e, λ z. some_key (e ∙ z)))
          | inr differs ↦
              let before : m.named_rooms other ≡ some i = simp differs at f in
              inl (old_name other i held m h before, before)
        ])

create_named-Seats :
    (key : Name) (g : Guest) (held : List Place) (m : RoomManager)
    → Kept held m
    → key ≢ []
    → Seats held (create_named key g m)
unfolding create_named settle_create call_match name_room room_made
create_named-Seats key g held m h some_key =
    let id = m.next_room_id in
    let q0 = room_made key m in
    let m1 = open_room key m in
    let m2 = name_room key (some id) m1 in
    let m3 = change_room id count_seat m2 in
    let a1 = open_room-Alters key m (fresh-none held m h) in
    let a3 = change_room-Alters id count_seat (some q0) m2 a1.here in
    let j =
      join-Sits 0 g.username g.rating g.send g.close q0.match (omega arith)
        (room_made-Seated key m) in
    rw (join_in-at id g (count_seat q0) m3 a3.here) (
      simp j.given (
        player id j.color,
        refl,
        named-Kept key (join g.username g.rating g.send g.close q0.match).2 (player id j.color) held
            m h some_key j.seated refl (inr j.taken),
      ))

-- An id drawn that is not in use, or none when all of them are.
abbrev pub Draws : List Name → (Name → Option ℕ) → Option Name → Type 0
Draws draws named none = All (λ d. is_free (named d) ≡ false) draws
Draws draws named (some key) = (key ∈ draws) × (is_free (named key) ≡ true)

Draws-cons :
    (d : Name) (ds : List Name) (named : Name → Option ℕ) (o : Option Name)
    → is_free (named d) ≡ false
    → Draws ds named o
    → Draws (d ∷ ds) named o
Draws-cons d ds named none used h = (used, h)
Draws-cons d ds named (some key) used (mem, free) = (inr mem, free)

generate-Draws :
    (draws : List Name) (named : Name → Option ℕ) → Draws draws named (generate_room_id draws named)
unfolding generate_room_id
generate-Draws [] named = tt
generate-Draws (d ∷ ds) named = elim (Bool-cases (is_free (named d))) [
  | inl free ↦ rw (free, generate_room_id) (inl refl, free)
  | inr used ↦
      rw (used, generate_room_id)
        (Draws-cons d ds named (generate_room_id ds named) used (generate-Draws ds named))
]

abbrev pub Creates :
    List Place → List Name → RoomManager → Option (Outcome × List RoomEffect × RoomManager) → Type 0
Creates held draws m none = All (λ d. is_free (m.named_rooms d) ≡ false) draws
Creates held draws m (some r) = Seats held r

∈-All : {A : Type 0} (P : A → Type 0) (a : A) (xs : List A) → a ∈ xs → All P xs → P a
∈-All P a [] m h = absurd m
∈-All P a (x ∷ xs) (inl e) h = rw e h.0
∈-All P a (x ∷ xs) (inr m) h = ∈-All P a xs m h.1

-- `create_room` between any operations, with ids drawn that are not empty: it seats its caller, unless every
-- id that is drawn is in use, and the rooms are as they should be with the new place.
pub create_room-Creates :
    (draws : List Name) (g : Guest) (held : List Place) (m : RoomManager)
    → Kept held m
    → All (λ d. d ≢ []) draws
    → Creates held draws m (create_room draws g m)
unfolding create_room
create_room-Creates draws g held m h some_key =
    created (generate_room_id draws m.named_rooms) (generate-Draws draws m.named_rooms)
  where
    created :
        (o : Option Name)
        → Draws draws m.named_rooms o
        → Creates held draws m (elim o [ none ↦ none | some key ↦ some (create_named key g m) ])
    created none used = used
    created (some key) (mem, free) =
        create_named-Seats key g held m h (∈-All (λ d. d ≢ []) key draws mem some_key)
