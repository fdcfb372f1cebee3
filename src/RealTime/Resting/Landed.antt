-- ===== src/RealTime/Resting/Landed.antt =====
-- The loop over the arrivals of a step, with time that passes after them.
use kung_fu_chess.Prelude.{
  ℕ, Bool, ◌+◌, ◌≡◌, refl, ap, List, [], ◌∷◌, Bool-cases, inl, inr, none, All, Result, ok, err,
  ◌>>=◌, arith,
}
use kung_fu_chess.Model.Board.{Board}
use kung_fu_chess.RealTime.Factory.{Motion}
use kung_fu_chess.RealTime.Collision.{ArrivalEvent}
use kung_fu_chess.RealTime.Arbiter.{
  RealTimeArbiter, Batch, PendingArrival, ResolvedArrival, Cooldowns, age_cooldowns, contains_id,
  find_cooldown, rest_after, record_arrival, resolve_one, resolve_all, resolve_arrival,
  block_arrival, land, advance_motion, advance_time, arrivals_of, after_batch, first_batch,
  pending_arrivals,
}
use kung_fu_chess.RealTime.Pending.{Within, pending_arrivals-Within}
use kung_fu_chess.RealTime.Quiet.{age_cooldowns-add, still_active-add}
use kung_fu_chess.RealTime.Safety.Invariant.{Distinct}
use kung_fu_chess.RealTime.Safety.Sorting.{
  piece_id, FreshPending, DistinctPending, All-pending_arrivals, All-sort_pending,
  sort_pending-distinct, pending_arrivals-Distinct,
}
use kung_fu_chess.RealTime.Resting.Before.{waited}
use kung_fu_chess.RealTime.Resting.After.{
  IsSettled, flown, all_flown, pending_arrivals-flown, sort_pending-flown,
  still_active-drop_moves_of, erase_cooldowns-age, find_cooldown-age, rest_after-age,
  find_cooldown-rest_after,
}

-- No piece rests already.
abbrev Rested : List PendingArrival → Cooldowns → Type 0
Rested ps l = All (λ p. find_cooldown (piece_id p) l ≡ none) ps

abbrev aged : ℕ → Batch → Batch
aged b k = record k { cooldowns = age_cooldowns b k.cooldowns }

resolve_arrival-flown :
    (b : ℕ) (m : Motion) (c : Board) → resolve_arrival (advance_motion b m) c ≡ resolve_arrival m c
unfolding resolve_arrival block_arrival land
resolve_arrival-flown b m c = refl

Rested-rest_after :
    (a : ℕ) (p : PendingArrival) (arrived : Bool) (ps : List PendingArrival) (l : Cooldowns)
    → FreshPending (piece_id p) ps
    → Rested ps l
    → Rested ps (rest_after a p arrived l)
Rested-rest_after a p arrived [] l f h = tt
Rested-rest_after a p arrived (q ∷ ps) l f h = (
  find_cooldown-rest_after (piece_id q) a p arrived l f.0 h.0,
  Rested-rest_after a p arrived ps l f.1 h.1,
)

-- Every arrival of the loop, with the time of `b` before it or after it.
resolve_all-flown :
    (start a b : ℕ) (ps : List PendingArrival) (k : Batch)
    → Within a ps
    → DistinctPending ps
    → Rested ps k.cooldowns
    → resolve_all start (a + b) (all_flown b ps) (aged b k)
      ≡ (resolve_all start a ps k >>= λ k'. ok (aged b k'))
unfolding resolve_all resolve_one
resolve_all-flown start a b [] k w d r = refl
resolve_all-flown start a b (p ∷ ps) k w d r =
    elim (Bool-cases (contains_id p.motion.moving_piece.id k.captured_this_batch)) [
      | inl e ↦ rw e (resolve_all-flown start a b ps k w.1 d.1 r.1)
      | inr e ↦
          rw (e, resolve_arrival-flown b p.motion k.board)
            (lands (resolve_arrival p.motion k.board) (λ o c.
              resolve_all-flown start a b ps (record_arrival start a p k o c) w.1 d.1
                (Rested-rest_after a p o.piece_actually_arrived ps k.cooldowns d.0 r.1)))
    ]
  where
    lands :
        (o : Result (ResolvedArrival × Board))
        → ((o : ResolvedArrival) (c : Board)
            → resolve_all start (a + b) (all_flown b ps) (aged b (record_arrival start a p k o c))
              ≡ (resolve_all start a ps (record_arrival start a p k o c) >>= λ k'. ok (aged b k')))
        → (◌>>=◌ {B = Batch} o
              (λ (o, c). ok (record_arrival start (a + b) (flown b p) (aged b k) o c))
            >>= resolve_all start (a + b) (all_flown b ps))
          ≡ ((◌>>=◌ {B = Batch} o (λ (o, c). ok (record_arrival start a p k o c))
                >>= resolve_all start a ps)
              >>= λ k'. ok (aged b k'))
    lands (err e) h = refl
    lands (ok (o, c)) h =
        rw (rest_after-age a b p o.piece_actually_arrived k.cooldowns w.0 r.0) (h o c)

Rested-age :
    (a : ℕ) (ps : List PendingArrival) (l : Cooldowns) → Rested ps l → Rested ps (age_cooldowns a l)
Rested-age a [] l h = tt
Rested-age a (p ∷ ps) l h = (find_cooldown-age (piece_id p) a l h.0, Rested-age a ps l h.1)

-- A flying piece does not rest.
abbrev pub FlyRested : RealTimeArbiter → Type 0
FlyRested s =
    All (λ m. find_cooldown m.moving_piece.id s.cooldowns_remaining_ms ≡ none) s.active_motions

-- If nothing arrives after `a`, a step of `a + b` is a step of `a`, and then `b` of waiting.
pub quiet_last :
    (a b : ℕ) (board : Board) (s : RealTimeArbiter)
    → IsSettled a b s.active_motions
    → Distinct s.active_motions
    → FlyRested s
    → advance_time (a + b) board s
      ≡ (advance_time a board s >>= λ (events, c, t). ok (events, c, waited b t))
unfolding advance_time
quiet_last a b board s settled distinct rested =
    rw
      (
        pending_arrivals-flown a b s.active_motions settled,
        sort_pending-flown,
        ← age_cooldowns-add a b s.cooldowns_remaining_ms,
        resolve_all-flown s.clock_ms a b (arrivals_of a s) (first_batch a board s)
            (All-sort_pending _ due (pending_arrivals-Within a s.active_motions))
            (sort_pending-distinct due (pending_arrivals-Distinct a s.active_motions distinct))
            (Rested-age a (arrivals_of a s) s.cooldowns_remaining_ms (
              All-sort_pending _ due
                (All-pending_arrivals _ a (λ m h. h) s.active_motions rested))),
      )
      (ends (resolve_all s.clock_ms a (arrivals_of a s) (first_batch a board s)))
  where
    due : List PendingArrival
    due = pending_arrivals a s.active_motions

    after : (k : Batch) → after_batch (a + b) s (aged b k) ≡ waited b (after_batch a s k)
    after k =
        let clock : s.clock_ms + (a + b) ≡ s.clock_ms + a + b = omega arith in
        rw
          (
            ← still_active-add a b s.active_motions,
            still_active-drop_moves_of,
            erase_cooldowns-age,
            clock,
          )
          refl

    ends :
        (o : Result Batch)
        → ◌>>=◌ {B = List ArrivalEvent × Board × RealTimeArbiter}
            (o >>= λ k. ok (aged b k))
            (λ k. ok (k.events, k.board, after_batch (a + b) s k))
          ≡ (◌>>=◌ {B = List ArrivalEvent × Board × RealTimeArbiter} o
                (λ k. ok (k.events, k.board, after_batch a s k))
              >>= λ (events, c, t). ok (events, c, waited b t))
    ends (ok k) = ap (λ t. ok (k.events, k.board, t)) (after k)
    ends (err e) = refl
