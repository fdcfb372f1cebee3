-- ===== src/RealTime/Safety/Ticks.antt =====
-- `advance_time` as a whole: what arrives in a tick, and what is left in flight.
use kung_fu_chess.Prelude.{
  ℕ, inl, inr, not, ◌&&◌, Bool-cases, List, [], ◌∷◌, All, All-map, Returns, arith,
}
use kung_fu_chess.Model.Board.{Board}
use kung_fu_chess.RealTime.Factory.{Motion, is_jump}
use kung_fu_chess.RealTime.Collision.{ArrivalEvent}
use kung_fu_chess.RealTime.Arbiter.{
  RealTimeArbiter, contains_id, advance_motion, pending_arrivals, still_active, drop_moves_of,
  first_batch, arrivals_of, after_batch, advance_time,
}
use kung_fu_chess.RealTime.Safety.Invariant.{IsAnchored, IsSafe, Fresh, Distinct, Survives}
use kung_fu_chess.RealTime.Safety.Sorting.{
  All-pending_arrivals, All-still_active, All-sort_pending, sort_pending-distinct,
  pending_arrivals-Distinct, still_active-Distinct, pending-apart,
}
use kung_fu_chess.RealTime.Safety.Batch.{Loop, resolve_all-Loop}

advance-IsAnchored :
    (b : Board) (ms : ℕ) (m : Motion) → IsAnchored b m → IsAnchored b (advance_motion ms m)
advance-IsAnchored b ms m a = record {
  source_inside = a.source_inside;
  destination_inside = a.destination_inside;
  in_place = a.in_place;
  nowhere_else = a.nowhere_else;
  present = a.present;
}

module _ (ids : List ℕ) where
  drop_moves_of-Fresh : (id : ℕ) (l : List Motion) → Fresh id l → Fresh id (drop_moves_of ids l)
  unfolding drop_moves_of
  drop_moves_of-Fresh id [] f = tt
  drop_moves_of-Fresh id (m ∷ l) f =
      elim (Bool-cases (contains_id m.moving_piece.id ids && not (is_jump m.kind))) [
        | inl e ↦ rw (e, drop_moves_of) (drop_moves_of-Fresh id l f.1)
        | inr e ↦ rw (e, drop_moves_of) (f.0, drop_moves_of-Fresh id l f.1)
      ]

  drop_moves_of-Distinct : (l : List Motion) → Distinct l → Distinct (drop_moves_of ids l)
  unfolding drop_moves_of
  drop_moves_of-Distinct [] d = tt
  drop_moves_of-Distinct (m ∷ l) d =
      elim (Bool-cases (contains_id m.moving_piece.id ids && not (is_jump m.kind))) [
        | inl e ↦ rw (e, drop_moves_of) (drop_moves_of-Distinct l d.1)
        | inr e ↦
            rw (e, drop_moves_of)
              (drop_moves_of-Fresh m.moving_piece.id l d.0, drop_moves_of-Distinct l d.1)
      ]

  drop_moves_of-anchored :
      (b : Board) (l : List Motion)
      → All (λ m. Survives ids m → IsAnchored b m) l
      → All (IsAnchored b) (drop_moves_of ids l)
  unfolding drop_moves_of
  drop_moves_of-anchored b [] h = tt
  drop_moves_of-anchored b (m ∷ l) h =
      elim (Bool-cases (contains_id m.moving_piece.id ids && not (is_jump m.kind))) [
        | inl e ↦ rw (e, drop_moves_of) (drop_moves_of-anchored b l h.1)
        | inr e ↦ rw (e, drop_moves_of) (h.0 (ground arith), drop_moves_of-anchored b l h.1)
      ]

module _ (ms : ℕ) (b : Board) (a : RealTimeArbiter) (safe : IsSafe b a) where
  abbrev moved : All (IsAnchored b) (still_active ms a.active_motions)
  moved = All-still_active (IsAnchored b) ms (advance-IsAnchored b ms) a.active_motions safe.motions

  start-Loop : Loop (still_active ms a.active_motions) (arrivals_of ms a) (first_batch ms b a)
  start-Loop = record {
    board = safe.board;
    waiting =
        All-map _ _ (arrivals_of ms a) (λ p h s. h)
          (All-sort_pending (λ p. IsAnchored b p.motion) (pending_arrivals ms a.active_motions)
            (All-pending_arrivals (IsAnchored b) ms (advance-IsAnchored b ms) a.active_motions
              safe.motions));
    flying = All-map _ _ (still_active ms a.active_motions) (λ m h s. h) moved;
    distinct =
        sort_pending-distinct (pending_arrivals ms a.active_motions)
          (pending_arrivals-Distinct ms a.active_motions safe.distinct);
    apart =
        All-sort_pending _ (pending_arrivals ms a.active_motions)
          (pending-apart ms a.active_motions safe.distinct);
  }

abbrev pub SafeAfter : List ArrivalEvent × Board × RealTimeArbiter → Type 0
SafeAfter (events, b, a) = IsSafe b a

-- From a safe state, a step of time of any length returns without an exception, whatever arrives,
-- collides or is captured in it, and leaves a safe state.
pub advance_time-IsSafe :
    (ms : ℕ) (b : Board) (a : RealTimeArbiter)
    → IsSafe b a
    → Returns SafeAfter (advance_time ms b a)
unfolding advance_time
advance_time-IsSafe ms b a safe =
    let still = still_active ms a.active_motions in
    let (batch, e, l) =
      resolve_all-Loop a.clock_ms ms still (arrivals_of ms a) (first_batch ms b a)
        (start-Loop ms b a safe) in
    (
      (batch.events, batch.board, after_batch ms a batch),
      rw e,
      record {
        board = l.board;
        motions = drop_moves_of-anchored batch.captured_this_batch batch.board still l.flying;
        distinct =
            drop_moves_of-Distinct batch.captured_this_batch still
              (still_active-Distinct ms a.active_motions safe.distinct);
      },
    )
