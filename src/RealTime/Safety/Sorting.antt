-- ===== src/RealTime/Safety/Sorting.antt =====
-- Splitting and sorting the motions of a tick, and the ids of what comes out.
use kung_fu_chess.Prelude.{ℕ, ◌≢◌, sym, inl, inr, ltb, Bool-cases, List, [], ◌∷◌, All}
use kung_fu_chess.RealTime.Factory.{Motion}
use kung_fu_chess.RealTime.Arbiter.{
  PendingArrival, advance_motion, is_due, pending_arrivals, still_active, insert_pending,
  sort_pending,
}
use kung_fu_chess.RealTime.Safety.Invariant.{Fresh, Distinct}

abbrev pub piece_id : PendingArrival → ℕ
piece_id p = p.motion.moving_piece.id

abbrev pub FreshPending : ℕ → List PendingArrival → Type 0
FreshPending id = All (λ p. piece_id p ≢ id)

abbrev pub DistinctPending : List PendingArrival → Type 0
DistinctPending [] = Unit {0}
DistinctPending (p ∷ ps) = FreshPending (piece_id p) ps × DistinctPending ps

-- Splitting and sorting the motions keeps what holds of each, and their ids distinct.
module _ {ℓ} (P : Motion → Type ℓ) (ms : ℕ)
    (step : (m : Motion) → P m → P (advance_motion ms m)) where
  pub All-pending_arrivals :
      (l : List Motion) → All P l → All (λ p. P p.motion) (pending_arrivals ms l)
  unfolding pending_arrivals
  All-pending_arrivals [] h = tt
  All-pending_arrivals (m ∷ l) h = elim (Bool-cases (is_due ms m)) [
    | inl e ↦ rw (e, pending_arrivals) (step m h.0, All-pending_arrivals l h.1)
    | inr e ↦ rw (e, pending_arrivals) (All-pending_arrivals l h.1)
  ]

  pub All-still_active : (l : List Motion) → All P l → All P (still_active ms l)
  unfolding still_active
  All-still_active [] h = tt
  All-still_active (m ∷ l) h = elim (Bool-cases (is_due ms m)) [
    | inl e ↦ rw (e, still_active) (All-still_active l h.1)
    | inr e ↦ rw (e, still_active) (step m h.0, All-still_active l h.1)
  ]

module _ {ℓ} (P : PendingArrival → Type ℓ) where
  All-insert_pending :
      (x : PendingArrival) (l : List PendingArrival) → P x → All P l → All P (insert_pending x l)
  unfolding insert_pending
  All-insert_pending x [] hx h = (hx, tt)
  All-insert_pending x (y ∷ l) hx h =
      elim (Bool-cases (ltb y.time_into_tick_ms x.time_into_tick_ms)) [
        | inl e ↦ rw (e, insert_pending) (h.0, All-insert_pending x l hx h.1)
        | inr e ↦ rw (e, insert_pending) (hx, h)
      ]

  pub All-sort_pending : (l : List PendingArrival) → All P l → All P (sort_pending l)
  unfolding sort_pending
  All-sort_pending [] h = tt
  All-sort_pending (x ∷ l) h = All-insert_pending x (sort_pending l) h.0 (All-sort_pending l h.1)

insert_pending-distinct :
    (x : PendingArrival) (l : List PendingArrival)
    → FreshPending (piece_id x) l
    → DistinctPending l
    → DistinctPending (insert_pending x l)
unfolding insert_pending
insert_pending-distinct x [] f d = (tt, tt)
insert_pending-distinct x (y ∷ l) f d =
    elim (Bool-cases (ltb y.time_into_tick_ms x.time_into_tick_ms)) [
      | inl e ↦
          rw (e, insert_pending)
            (
              All-insert_pending (λ p. piece_id p ≢ piece_id y) x l (λ s. f.0 (sym s)) d.0,
              insert_pending-distinct x l f.1 d.1,
            )
      | inr e ↦ rw (e, insert_pending) (f, d)
    ]

pub sort_pending-distinct :
    (l : List PendingArrival) → DistinctPending l → DistinctPending (sort_pending l)
unfolding sort_pending
sort_pending-distinct [] d = tt
sort_pending-distinct (x ∷ l) d =
    insert_pending-distinct x (sort_pending l) (All-sort_pending _ l d.0)
      (sort_pending-distinct l d.1)

module _ (ms : ℕ) where
  pub pending_arrivals-Distinct :
      (l : List Motion) → Distinct l → DistinctPending (pending_arrivals ms l)
  unfolding pending_arrivals
  pending_arrivals-Distinct [] d = tt
  pending_arrivals-Distinct (m ∷ l) d = elim (Bool-cases (is_due ms m)) [
    | inl e ↦
        rw (e, pending_arrivals)
          (
            All-pending_arrivals (λ n. n.moving_piece.id ≢ m.moving_piece.id) ms (λ n h. h) l d.0,
            pending_arrivals-Distinct l d.1,
          )
    | inr e ↦ rw (e, pending_arrivals) (pending_arrivals-Distinct l d.1)
  ]

  pub still_active-Distinct : (l : List Motion) → Distinct l → Distinct (still_active ms l)
  unfolding still_active
  still_active-Distinct [] d = tt
  still_active-Distinct (m ∷ l) d = elim (Bool-cases (is_due ms m)) [
    | inl e ↦ rw (e, still_active) (still_active-Distinct l d.1)
    | inr e ↦
        rw (e, still_active)
          (
            All-still_active (λ n. n.moving_piece.id ≢ m.moving_piece.id) ms (λ n h. h) l d.0,
            still_active-Distinct l d.1,
          )
  ]

  -- A motion that is due is not in flight any more.
  pub pending-apart :
      (l : List Motion)
      → Distinct l
      → All (λ p. Fresh (piece_id p) (still_active ms l)) (pending_arrivals ms l)
  unfolding pending_arrivals still_active
  pending-apart [] d = tt
  pending-apart (m ∷ l) d = elim (Bool-cases (is_due ms m)) [
    | inl e ↦
        rw (e, pending_arrivals, still_active)
          (
            All-still_active (λ n. n.moving_piece.id ≢ m.moving_piece.id) ms (λ n h. h) l d.0,
            pending-apart l d.1,
          )
    | inr e ↦
        rw (e, pending_arrivals, still_active)
          (with_head (pending_arrivals ms l)
            (All-pending_arrivals (λ n. n.moving_piece.id ≢ m.moving_piece.id) ms (λ n h. h) l d.0)
            (pending-apart l d.1))
  ]
    where
      with_head :
          (ps : List PendingArrival)
          → FreshPending m.moving_piece.id ps
          → All (λ p. Fresh (piece_id p) (still_active ms l)) ps
          → All (λ p. Fresh (piece_id p) (advance_motion ms m ∷ still_active ms l)) ps
      with_head [] f h = tt
      with_head (p ∷ ps) f h = ((λ s. f.0 (sym s), h.0), with_head ps f.1 h.1)
