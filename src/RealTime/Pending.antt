-- ===== src/RealTime/Pending.antt =====
-- The order of arrivals: the sort of the pending motions, and the instants that a step reports.
use mathlib.Core.List.{Perm}
use mathlib.Core.List.Perm
use kung_fu_chess.Prelude.{
  ℕ, ◌+◌, ◌≤◌, ◌<◌, ◌≡◌, refl, ◌∙◌, ◌⊎◌, inl, inr, true, ltb, leb, ◌==◌, Bool-cases, if◌then◌else◌,
  List, [], ◌∷◌, All, arith,
}
use kung_fu_chess.RealTime.Factory.{Motion}
use kung_fu_chess.RealTime.Arbiter.{
  RealTimeArbiter, PendingArrival, pending_arrivals, insert_pending, sort_pending, is_due,
  arrivals_of, advance_motion, arrival_time,
}

-- The entries at one time, in their order.
abbrev pub at_time : ℕ → List PendingArrival → List PendingArrival
at_time t [] = []
at_time t (p ∷ ps) = if p.time_into_tick_ms == t then p ∷ at_time t ps else at_time t ps

-- Times do not fall along the list, and lie between two bounds.
abbrev pub Ordered : ℕ → ℕ → List PendingArrival → Type 0
Ordered lo hi [] = lo ≤ hi
Ordered lo hi (p ∷ ps) = (lo ≤ p.time_into_tick_ms) × Ordered p.time_into_tick_ms hi ps

insert_pending-Ordered :
    (lo hi : ℕ) (x : PendingArrival) (l : List PendingArrival)
    → lo ≤ x.time_into_tick_ms
    → x.time_into_tick_ms ≤ hi
    → Ordered lo hi l
    → Ordered lo hi (insert_pending x l)
unfolding insert_pending
insert_pending-Ordered lo hi x [] a b h = (a, b)
insert_pending-Ordered lo hi x (y ∷ l) a b h =
    elim (Bool-cases (ltb y.time_into_tick_ms x.time_into_tick_ms)) [
      | inl e ↦
          rw (e, insert_pending)
            (h.0, insert_pending-Ordered y.time_into_tick_ms hi x l (ground arith) b h.1)
      | inr e ↦ rw (e, insert_pending) (a, (ground arith, h.1))
    ]

insert_pending-perm :
    (x : PendingArrival) (l : List PendingArrival) → Perm (insert_pending x l) (x ∷ l)
unfolding insert_pending
insert_pending-perm x [] = Perm.refl (x ∷ [])
insert_pending-perm x (y ∷ l) = elim (Bool-cases (ltb y.time_into_tick_ms x.time_into_tick_ms)) [
  | inl e ↦
      rw (e, insert_pending) (Perm.trans (Perm.cons y (insert_pending-perm x l)) (Perm.swap x y l))
  | inr e ↦ rw (e, insert_pending) (Perm.refl (x ∷ y ∷ l))
]

insert_pending-at_time :
    (t : ℕ) (x : PendingArrival) (l : List PendingArrival)
    → at_time t (insert_pending x l) ≡ at_time t (x ∷ l)
unfolding insert_pending
insert_pending-at_time t x [] = refl
insert_pending-at_time t x (y ∷ l) = ground (arith, insert_pending-at_time t x l)

-- What a stable sort by time promises.
pub record IsStableSort (hi : ℕ) (l sorted : List PendingArrival) : Type 0 where
  pub ordered : Ordered 0 hi sorted
  pub perm : Perm sorted l
  pub stable : (t : ℕ) → at_time t sorted ≡ at_time t l

abbrev pub Within : ℕ → List PendingArrival → Type 0
Within hi = All (λ p. p.time_into_tick_ms ≤ hi)

sort_pending-Ordered :
    (hi : ℕ) (l : List PendingArrival) → Within hi l → Ordered 0 hi (sort_pending l)
unfolding sort_pending
sort_pending-Ordered hi [] h = omega arith
sort_pending-Ordered hi (x ∷ l) h =
    insert_pending-Ordered 0 hi x (sort_pending l) (omega arith) h.0 (sort_pending-Ordered hi l h.1)

sort_pending-perm : (l : List PendingArrival) → Perm (sort_pending l) l
unfolding sort_pending
sort_pending-perm [] = Perm.refl []
sort_pending-perm (x ∷ l) =
    Perm.trans (insert_pending-perm x (sort_pending l)) (Perm.cons x (sort_pending-perm l))

sort_pending-at_time : (t : ℕ) (l : List PendingArrival) → at_time t (sort_pending l) ≡ at_time t l
unfolding sort_pending
sort_pending-at_time t [] = refl
sort_pending-at_time t (x ∷ l) =
    insert_pending-at_time t x (sort_pending l) ∙ ground (arith, sort_pending-at_time t l)

pub pending_arrivals-Within : (ms : ℕ) (l : List Motion) → Within ms (pending_arrivals ms l)
unfolding pending_arrivals
pending_arrivals-Within ms [] = tt
pending_arrivals-Within ms (m ∷ l) = elim (Bool-cases (is_due ms m)) [
  | inl e ↦ rw (e, pending_arrivals) (omega arith, pending_arrivals-Within ms l)
  | inr e ↦ rw (e, pending_arrivals) (pending_arrivals-Within ms l)
]

-- The entry of a motion that arrives within a step of `ms`: the motion with the whole step behind it, and
-- the instant at which its time is up, which is 0 if it was up before.
abbrev pub Arrives : ℕ → Motion → PendingArrival → Type 0
Arrives ms m p =
    (p.motion ≡ record m { elapsed_ms = m.elapsed_ms + ms })
    × ((m.elapsed_ms + p.time_into_tick_ms ≡ m.duration_ms)
        ⊎ (m.duration_ms ≤ m.elapsed_ms) × (p.time_into_tick_ms ≡ 0))

-- The entries, one for one and in order, of the motions whose time is up at the end of the step.
abbrev pub EntriesOf : ℕ → List Motion → List PendingArrival → Type 0
EntriesOf ms [] entries = entries ≡ []
EntriesOf ms (m ∷ l) entries =
    (m.duration_ms ≤ m.elapsed_ms + ms)
      × ((p : PendingArrival) × (others : List PendingArrival) × (entries ≡ p ∷ others)
          × Arrives ms m p
          × EntriesOf ms l others)
    ⊎ (m.elapsed_ms + ms < m.duration_ms) × EntriesOf ms l entries

arrival_time-Arrives :
    (ms : ℕ) (m : Motion)
    → is_due ms m ≡ true
    → Arrives ms m (record { motion = advance_motion ms m; time_into_tick_ms = arrival_time ms m })
arrival_time-Arrives ms m e = elim (Bool-cases (leb m.duration_ms m.elapsed_ms)) [
  | inl before ↦ (refl, inr (ground arith, ground arith))
  | inr within ↦ (refl, inl (ground arith))
]

pending_arrivals-EntriesOf : (ms : ℕ) (l : List Motion) → EntriesOf ms l (pending_arrivals ms l)
unfolding pending_arrivals
pending_arrivals-EntriesOf ms [] = refl
pending_arrivals-EntriesOf ms (m ∷ l) =
    let rest = pending_arrivals-EntriesOf ms l in
    elim (Bool-cases (is_due ms m)) [
      | inl e ↦ inl (ground arith, (_, _, rw e refl, arrival_time-Arrives ms m e, rest))
      | inr e ↦ inr (ground arith, rw e rest)
    ]

-- The arrivals of a step are a stable sort by the time into the step of a list that has one entry for
-- each motion whose duration is not longer than what has elapsed of it with the step, in the order in
-- which the motions were started, and none for any other. An entry's time is what was left of the
-- motion when the step began. So times do not fall along the arrivals, none is after the step, and those
-- of one instant keep the order in which their motions were started.
pub arrivals_of-IsStableSort :
    (ms : ℕ) (a : RealTimeArbiter)
    → (entries : List PendingArrival) × EntriesOf ms a.active_motions entries
      × IsStableSort ms entries (arrivals_of ms a)
arrivals_of-IsStableSort ms a =
    let l = pending_arrivals ms a.active_motions in
    (
      l,
      pending_arrivals-EntriesOf ms a.active_motions,
      record {
        ordered = sort_pending-Ordered ms l (pending_arrivals-Within ms a.active_motions);
        perm = sort_pending-perm l;
        stable = λ t. sort_pending-at_time t l;
      },
    )
