-- ===== src/Server/Rooms/Removing.antt =====
-- A place that is given up, and a room that is taken off the books (server/src/kfc/server/room_manager.cpp).
use kung_fu_chess.Prelude.{
  string_eq, string_eq_self, ℕ, ◌+◌, ◌≡◌, ◌≢◌, refl, sym, ap, ◌⊎◌, inl, inr, true, false, ◌==◌,
  ==_iff, if◌then◌else◌, Bool-cases, Option, none, some, List, [], ◌∷◌, ◌∈◌, arith, zero, suc,
  get_elem?,
}
use kung_fu_chess.Server.Audience.{Name}
use kung_fu_chess.Server.MatchScheduler.{MatchScheduler, remove, take_from}
use kung_fu_chess.Server.Match.{Match}
use kung_fu_chess.Server.Match.Seating.{Seated, Taken}
use kung_fu_chess.Server.Rooms.State.{Room, RoomManager, Place, change, with_scheduler}
use kung_fu_chess.Server.Rooms.Waiting.{unmark_waiting}
use kung_fu_chess.Server.Rooms.Invariant.{count_in, Scheduled, Alters}
use kung_fu_chess.Server.Rooms.Opening.{name_room, forget_name, erase_room, stop_ticking}
use kung_fu_chess.Server.MatchScheduler.Ownership.{remove-IsManned}
use kung_fu_chess.Server.Match.SeatsKept.{leave-Seated, drop-Seated}
use kung_fu_chess.Server.Rooms.Leaving.{leave_match}

abbrev pub remove_at : ℕ → List Place → List Place
remove_at i [] = []
remove_at zero (p ∷ ps) = ps
remove_at (suc i) (p ∷ ps) = p ∷ remove_at i ps

abbrev pub Given : ℕ → Place → List Place → Type 0
Given i p held = get_elem? held i ≡ some p

pub of_remove_at : (i : ℕ) (q : Place) (held : List Place) → q ∈ remove_at i held → q ∈ held
of_remove_at i q [] m = m
of_remove_at zero q (p ∷ ps) m = inr m
of_remove_at (suc i) q (p ∷ ps) (inl e) = inl e
of_remove_at (suc i) q (p ∷ ps) (inr m) = inr (of_remove_at i q ps m)

pub Given-∈ : (i : ℕ) (p : Place) (held : List Place) → Given i p held → p ∈ held
Given-∈ i p [] g = absurd (cc)
Given-∈ zero p (q ∷ qs) g = inl (cc)
Given-∈ (suc i) p (q ∷ qs) g = inr (Given-∈ i p qs g)

pub count-remove_at :
    (i k : ℕ) (p : Place) (held : List Place)
    → Given i p held
    → count_in k held
      ≡ (if p.room == k then 1 + count_in k (remove_at i held) else count_in k (remove_at i held))
count-remove_at i k p [] g = absurd (cc)
count-remove_at zero k p (q ∷ qs) g = ground arith
count-remove_at (suc i) k p (q ∷ qs) g = ground (arith, count-remove_at i k p qs g)

pub leave_match-Seated :
    (n : ℕ) (p : Place) (m : Match)
    → (p.spectator ≡ true) ⊎ Taken n p.color
    → Seated n m
    → Seated n (leave_match p m)
unfolding leave_match
leave_match-Seated n p m fits s = elim (Bool-cases p.spectator) [
  | inl watches ↦ simp watches (leave-Seated n p.watcher m s)
  | inr plays ↦ simp plays (elim fits [ inl w ↦ absurd (cc) | inr t ↦ drop-Seated n p.color m t s ])
]

-- What forgetting a name leaves alone, and what it forgets.
pub forget-frame :
    (name : Name) (m : RoomManager)
    → ((forget_name name m).rooms ≡ m.rooms)
      × ((forget_name name m).waiting ≡ m.waiting)
      × ((forget_name name m).scheduler ≡ m.scheduler)
      × ((forget_name name m).next_room_id ≡ m.next_room_id)
unfolding forget_name name_room
forget-frame [] m = (refl, refl, refl, refl)
forget-frame (c ∷ cs) m = (refl, refl, refl, refl)

pub forgotten :
    (name key : Name) (i : ℕ) (m : RoomManager)
    → (forget_name name m).named_rooms key ≡ some i
    → (m.named_rooms key ≡ some i) × (name ≡ key → key ≢ [] → ⊥)
unfolding forget_name name_room
forgotten [] key i m f = (f, λ e n. n (sym e))
forgotten (c ∷ cs) key i m f = elim (Bool-cases (string_eq (c ∷ cs) key)) [
  | inl same ↦ let gone : none ≡ some i = simp same at f in absurd (cc)
  | inr differs ↦ (
    simp differs at f,
    λ e n. let same : string_eq (c ∷ cs) key ≡ true = rw (← e) (string_eq_self (c ∷ cs)) in cc,
  )
]

owners-remove :
    (key i : ℕ) (s : MatchScheduler) → (i == key) ≡ false → (remove key s).owners i ≡ s.owners i
unfolding remove
owners-remove key i s n = kept (s.owners key)
  where
    kept : (o : Option ℕ) → (take_from o key s).owners i ≡ s.owners i
    kept none = unfold take_from in refl
    kept (some owner) = unfold take_from in (simp n refl)

pub removed-Scheduled :
    (id : ℕ) (o : Option MatchScheduler) (m k : RoomManager)
    → Alters id none m k
    → Scheduled o m.rooms
    → Scheduled (change (remove id) o) k.rooms
removed-Scheduled id none m k a s = tt
removed-Scheduled id (some t) m k a (manned, owned) =
    let (still, gone) = remove-IsManned id t manned in
    (
      still,
      λ i. elim (Bool-cases (i == id)) [
        | inl y ↦ rw ((==_iff i id).0 y, a.here, gone) refl
        | inr n ↦ rw (a.there i n, owners-remove id i t n) (owned i)
      ],
    )

-- The last connection: the room is gone from all the books, and from its worker.
unfoldable pub reaped : ℕ → Room → RoomManager → RoomManager
reaped id r m =
    stop_ticking id (erase_room id (unmark_waiting id r.waiting_rating (forget_name r.name m)))

pub reaped-Alters : (id : ℕ) (r : Room) (m : RoomManager) → Alters id none m (reaped id r m)
unfolding reaped stop_ticking erase_room unmark_waiting with_scheduler
reaped-Alters id r m = record {
  here = ground arith;
  there = λ i n. simp n (ap (λ f. f i) (forget-frame r.name m).0);
}
