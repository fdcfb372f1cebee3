-- ===== src/RealTime/Resting/Before.antt =====
-- A step of `advance_time` whose first part brings no arrival.
use kung_fu_chess.Prelude.{
  ℕ, ◌+◌, ◌-◌, ◌≡◌, refl, ap, List, [], ◌∷◌, false, true, ltb, Bool-cases, inl, inr, ok, arith,
}
use kung_fu_chess.Model.Board.{Board}
use kung_fu_chess.RealTime.Factory.{Motion}
use kung_fu_chess.RealTime.Arbiter.{
  RealTimeArbiter, Batch, PendingArrival, is_due, pending_arrivals, still_active, advance_motion,
  arrival_time, insert_pending, sort_pending, rest_after, resolve_one, resolve_all, age_cooldowns,
  advance_time, after_batch, erase_cooldowns, resolve_arrival, first_batch, arrivals_of,
  record_arrival, contains_id, ResolvedArrival,
}
use kung_fu_chess.RealTime.Quiet.{
  IsQuiet, pending_arrivals-IsQuiet, drop_moves_of-nothing, age_cooldowns-add, still_active-add,
  >>=-same,
}

-- Nothing but time has passed.
abbrev pub waited : ℕ → RealTimeArbiter → RealTimeArbiter
waited ms a = record {
  active_motions = still_active ms a.active_motions;
  cooldowns_remaining_ms = age_cooldowns ms a.cooldowns_remaining_ms;
  clock_ms = a.clock_ms + ms;
}

pub advance_time-IsQuiet :
    (ms : ℕ) (b : Board) (a : RealTimeArbiter)
    → IsQuiet ms a.active_motions
    → advance_time ms b a ≡ ok ([], b, waited ms a)
unfolding advance_time sort_pending resolve_all erase_cooldowns
advance_time-IsQuiet ms b a quiet =
    rw (pending_arrivals-IsQuiet ms a.active_motions quiet, drop_moves_of-nothing) refl

abbrev later : ℕ → PendingArrival → PendingArrival
later a p = record p { time_into_tick_ms = a + p.time_into_tick_ms }

abbrev all_later : ℕ → List PendingArrival → List PendingArrival
all_later a [] = []
all_later a (p ∷ ps) = later a p ∷ all_later a ps

pending_arrivals-later :
    (a b : ℕ) (l : List Motion)
    → IsQuiet a l
    → pending_arrivals (a + b) l ≡ all_later a (pending_arrivals b (still_active a l))
unfolding pending_arrivals still_active
pending_arrivals-later a b [] h = refl
pending_arrivals-later a b (m ∷ l) h =
    let rest = pending_arrivals-later a b l h.1 in
    let flies : is_due a m ≡ false = ground (arith, h.0) in
    rw flies (elim (Bool-cases (is_due (a + b) m)) [
      | inl e ↦
          let then : is_due b (advance_motion a m) ≡ true = ground (arith, e) in
          let instant : arrival_time (a + b) m ≡ a + arrival_time b (advance_motion a m) =
            ground (arith, e, h.0) in
          let same : advance_motion (a + b) m ≡ advance_motion b (advance_motion a m) =
            ground arith in
          rw (e, then, instant, same, rest) refl
      | inr e ↦
          let then : is_due b (advance_motion a m) ≡ false = ground (arith, e) in
          rw (e, then, rest) refl
    ])

insert_pending-later :
    (a : ℕ) (p : PendingArrival) (l : List PendingArrival)
    → insert_pending (later a p) (all_later a l) ≡ all_later a (insert_pending p l)
unfolding insert_pending
insert_pending-later a p [] = refl
insert_pending-later a p (q ∷ l) =
    let rest = insert_pending-later a p l in
    elim (Bool-cases (ltb q.time_into_tick_ms p.time_into_tick_ms)) [
      | inl e ↦
          let e' : ltb (a + q.time_into_tick_ms) (a + p.time_into_tick_ms) ≡ true =
            ground (arith, e) in
          rw (e, e', rest) refl
      | inr e ↦
          let e' : ltb (a + q.time_into_tick_ms) (a + p.time_into_tick_ms) ≡ false =
            ground (arith, e) in
          rw (e, e') refl
    ]

sort_pending-later :
    (a : ℕ) (l : List PendingArrival) → sort_pending (all_later a l) ≡ all_later a (sort_pending l)
unfolding sort_pending
sort_pending-later a [] = refl
sort_pending-later a (p ∷ l) =
    rw (sort_pending-later a l) (insert_pending-later a p (sort_pending l))

-- What is left of the step after an arrival, and the instant of the arrival, are the same.
record_arrival-later :
    (start a b : ℕ) (p : PendingArrival) (batch : Batch) (r : ResolvedArrival) (c : Board)
    → record_arrival start (a + b) (later a p) batch r c ≡ record_arrival (start + a) b p batch r c
unfolding rest_after
record_arrival-later start a b p batch r c =
    let left : ((a + b) - (a + p.time_into_tick_ms)) ≡ b - p.time_into_tick_ms = omega arith in
    let instant : start + (a + p.time_into_tick_ms) ≡ start + a + p.time_into_tick_ms =
      omega arith in
    rw (left, instant) refl

resolve_one-later :
    (start a b : ℕ) (p : PendingArrival) (batch : Batch)
    → resolve_one start (a + b) (later a p) batch ≡ resolve_one (start + a) b p batch
unfolding resolve_one
resolve_one-later start a b p batch =
    elim (Bool-cases (contains_id p.motion.moving_piece.id batch.captured_this_batch)) [
      | inl e ↦ rw e refl
      | inr e ↦ rw e (
          >>=-same (resolve_arrival p.motion batch.board) _ _
            (λ (r, c). ap ok (record_arrival-later start a b p batch r c)))
    ]

resolve_all-later :
    (start a b : ℕ) (ps : List PendingArrival) (batch : Batch)
    → resolve_all start (a + b) (all_later a ps) batch ≡ resolve_all (start + a) b ps batch
unfolding resolve_all
resolve_all-later start a b [] batch = refl
resolve_all-later start a b (p ∷ ps) batch =
    rw (resolve_one-later start a b p batch)
      (>>=-same (resolve_one (start + a) b p batch) _ _ (resolve_all-later start a b ps))

-- If nothing arrives within `a`, a step of `b` after a step of `a` is a step of `a + b`.
pub quiet_first :
    (a b : ℕ) (board : Board) (s : RealTimeArbiter)
    → IsQuiet a s.active_motions
    → advance_time b board (waited a s) ≡ advance_time (a + b) board s
unfolding advance_time
quiet_first a b board s quiet =
    rw
      (
        pending_arrivals-later a b s.active_motions quiet,
        sort_pending-later,
        resolve_all-later,
        ← age_cooldowns-add a b s.cooldowns_remaining_ms,
      )
      (>>=-same
        (resolve_all (s.clock_ms + a) b (arrivals_of b (waited a s))
          (first_batch b board (waited a s)))
        _ _ (λ k. ap (λ t. ok (k.events, k.board, t)) (after k)))
  where
    after : (k : Batch) → after_batch b (waited a s) k ≡ after_batch (a + b) s k
    after k =
        let clock : s.clock_ms + a + b ≡ s.clock_ms + (a + b) = omega arith in
        rw (still_active-add a b s.active_motions, clock) refl
