-- ===== src/Server/Rooms/ByName.antt =====
-- `join_room` on every path of it.
use kung_fu_chess.Prelude.{
  ℕ, ◌<◌, ◌≡◌, ◌≢◌, refl, sym, ◌∙◌, inl, inr, Bool, true, false, ◌==◌, leb, Bool-cases, Option,
  none, some, Option-cases, List, [], arith,
}
use kung_fu_chess.Model.{PieceColor}
use kung_fu_chess.Server.Audience.{Name}
use kung_fu_chess.Server.Match.{
  Match, Effect, join, join_spectator, reconnect, reclaimable_seat_for,
}
use kung_fu_chess.Server.Match.Seating.{Taken, TakenBy, Seated}
use kung_fu_chess.Server.Match.SeatsKept.{
  join-Sits, spectate-Seated, reconnect-Seated, reclaimable-Taken,
}
use kung_fu_chess.Server.Rooms.State.{
  Room, RoomManager, Place, change_room, count_connection, count_seat,
}
use kung_fu_chess.Server.Rooms.Joining.{
  Guest, call_match, player, watching, join_in, rejoin_in, watch_in, find_room, chosen_seat,
  reserve, settle_room, settle_reclaim, settle_watch, settle_play, settle_absent, join_room,
}
use kung_fu_chess.Server.Rooms.Invariant.{count_in, RoomOk, NamedOk, Kept, change_room-Alters}
use kung_fu_chess.Server.Rooms.Staying.{comes-Kept, goes-Kept, hold, Handed}

watch_in-at :
    (id : ℕ) (g : Guest) (r : Room) (m : RoomManager)
    → m.rooms id ≡ some r
    → watch_in id g m ≡ call_match id (join_spectator g.send g.close r.match) m
unfolding watch_in
watch_in-at id g r m e = rw (e, watch_in) refl

rejoin_in-at :
    (id : ℕ) (color : PieceColor) (g : Guest) (r : Room) (m : RoomManager)
    → m.rooms id ≡ some r
    → rejoin_in id color g m ≡ call_match id (reconnect color g.send g.close r.match) m
unfolding rejoin_in
rejoin_in-at id color g r m e = rw (e, rejoin_in) refl

pub join_in-at :
    (id : ℕ) (g : Guest) (r : Room) (m : RoomManager)
    → m.rooms id ≡ some r
    → join_in id g m ≡ call_match id (join g.username g.rating g.send g.close r.match) m
unfolding join_in
join_in-at id g r m e = rw (e, join_in) refl

module _ (id : ℕ) (g : Guest) (r : Room) (held : List Place) (m : RoomManager) (h : Kept held m)
    (e : m.rooms id ≡ some r) (s : Seated r.seats_taken r.match) where
  watch-Handed : Handed held (settle_watch id (watch_in id g (change_room id count_connection m)))
  unfolding settle_watch call_match
  watch-Handed =
      let m1 = change_room id count_connection m in
      let a1 = change_room-Alters id count_connection (some r) m e in
      let w = join_spectator g.send g.close r.match in
      let s1 = spectate-Seated r.seats_taken g.send g.close r.match s in
      rw (watch_in-at id g (count_connection r) m1 a1.here) (elim (Bool-cases (w.0 == 0)) [
        | inl none_added ↦ simp none_added (goes-Kept id w.2 r held m h e s1)
        | inr added ↦ simp added (
            comes-Kept id count_connection w.2 (watching id w.0) r held m h e
              (refl, refl, omega arith, inl refl) refl s1 refl (inl refl))
      ])

  reclaim-Handed :
      (color : PieceColor)
      → Taken r.seats_taken color
      → Handed held
          (settle_reclaim id color (rejoin_in id color g (change_room id count_connection m)))
  unfolding call_match
  reclaim-Handed color t =
      let m1 = change_room id count_connection m in
      let a1 = change_room-Alters id count_connection (some r) m e in
      rw (rejoin_in-at id color g (count_connection r) m1 a1.here) (
        answered (reconnect color g.send g.close r.match)
          (reconnect-Seated r.seats_taken color g.send g.close r.match t s))
    where
      answered :
          (w : Bool × List Effect × Match)
          → Seated r.seats_taken w.2
          → Handed held
              (settle_reclaim id color (call_match id w (change_room id count_connection m)))
      answered (true, effects, after) s1 =
          unfold settle_reclaim call_match in
          comes-Kept id count_connection after (player id color) r held m h e
            (refl, refl, omega arith, inl refl) refl s1 refl (inr t)
      answered (false, effects, after) s1 =
          unfold settle_reclaim call_match in goes-Kept id after r held m h e s1

  play-Handed :
      r.seats_taken < 2
      → r.name ≢ []
      → Handed held (settle_play id (join_in id g (change_room id count_seat m)))
  unfolding settle_play call_match
  play-Handed few named =
      let m1 = change_room id count_seat m in
      let a1 = change_room-Alters id count_seat (some r) m e in
      let j = join-Sits r.seats_taken g.username g.rating g.send g.close r.match few s in
      rw (join_in-at id g (count_seat r) m1 a1.here) (
        simp j.given (
          comes-Kept id count_seat (join g.username g.rating g.send g.close r.match).2
            (player id j.color) r held m h e (refl, refl, omega arith, inr named) refl j.seated refl
            (inr j.taken)))

  found-Handed :
      (owner : Option Name) (o : Option PieceColor)
      → r.name ≢ []
      → TakenBy r.seats_taken o
      → Handed held (settle_room (chosen_seat o id r) owner g (reserve (chosen_seat o id r) m))
  unfolding settle_room reserve
  found-Handed owner (some color) named t = reclaim-Handed color t
  found-Handed owner none named t = elim (Bool-cases (leb 2 r.seats_taken)) [
    | inl full ↦ simp full watch-Handed
    | inr free ↦ simp free (play-Handed (ground arith) named)
  ]

held_absent :
    (owner : Option Name) (held : List Place) (m : RoomManager)
    → hold (settle_absent owner m) held ≡ held
unfolding settle_absent
held_absent owner held m = ground arith

named-Handed :
    (key : Name) (o : Option ℕ) (owner : Option Name) (g : Guest) (held : List Place)
    (m : RoomManager)
    → Kept held m
    → m.named_rooms key ≡ o
    → Handed held
        (settle_room (find_room g.username o m) owner g (reserve (find_room g.username o m) m))
unfolding settle_room reserve find_room
named-Handed key none owner g held m h e = rw (held_absent owner held m) h
named-Handed key (some id) owner g held m h e = elim (Option-cases (m.rooms id)) [
  | inl gone ↦ rw (gone, find_room) h
  | inr (r, f) ↦
      let (c, l, b, s) : RoomOk m.next_room_id (count_in id held) id (some r) =
        rw f at (h.rooms_ok id) in
      let (n, k) : NamedOk key (some r) = rw f at (h.names key id e) in
      rw (f, find_room)
        (elim (Bool-cases r.match.game_over) [
          | inl done ↦ simp done h
          | inr on ↦ simp on (
              found-Handed id g r held m h f s owner (reclaimable_seat_for g.username r.match)
                (λ z. k (sym n ∙ z)) (reclaimable-Taken r.seats_taken g.username r.match s))
        ])
]

pub join_room-Handed :
    (key : Name) (owner : Option Name) (g : Guest) (held : List Place) (m : RoomManager)
    → Kept held m
    → Handed held (join_room key owner g m)
unfolding join_room
join_room-Handed key owner g held m h = named-Handed key (m.named_rooms key) owner g held m h refl
