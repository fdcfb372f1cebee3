-- ===== src/RealTime/Resting.antt =====
-- Time in pieces: one long step of `advance_time` against two shorter ones.
mod Before
mod After
mod Landed
use mathlib.Core.List.{append-nil}
use kung_fu_chess.Prelude.{
  ℕ, ◌+◌, ◌≡◌, refl, sym, subst, ◌∙◌, ◌⊎◌, inl, inr, List, [], ◌++◌, Result, ok, err, ◌>>=◌,
}
use kung_fu_chess.Model.Board.{Board}
use kung_fu_chess.RealTime.Collision.{ArrivalEvent}
use kung_fu_chess.RealTime.Arbiter.{
  RealTimeArbiter, Batch, advance_time, resolve_all, arrivals_of, first_batch, after_batch,
  still_active,
}
use kung_fu_chess.RealTime.Quiet.{IsQuiet}
use kung_fu_chess.RealTime.Safety.Invariant.{Distinct}
use kung_fu_chess.RealTime.Resting.Before.{waited, advance_time-IsQuiet, quiet_first}
use kung_fu_chess.RealTime.Resting.After.{IsSettled, still_active-IsQuiet, drop_moves_of-IsQuiet}
use kung_fu_chess.RealTime.Resting.Landed.{FlyRested, quiet_last}

abbrev Step : Type 0
Step = List ArrivalEvent × Board × RealTimeArbiter

-- Two steps, with the events of both.
abbrev pub two_steps : ℕ → ℕ → Board → RealTimeArbiter → Result Step
two_steps a b board s = do
  (events, c, t) ← advance_time a board s
  (more, d, u) ← advance_time b c t
  ok (events ++ more, d, u)

same_step : (o : Result Step) → (o >>= λ (events, c, t). ok (events, c, t)) ≡ o
same_step (ok r) = refl
same_step (err e) = refl

-- What a step leaves in flight.
advance_time-flights :
    (a b : ℕ) (board : Board) (s : RealTimeArbiter) (r : Step)
    → IsSettled a b s.active_motions
    → advance_time a board s ≡ ok r
    → IsQuiet b r.2.active_motions
unfolding advance_time
advance_time-flights a b board s r settled ran =
    left (resolve_all s.clock_ms a (arrivals_of a s) (first_batch a board s)) ran
  where
    left :
        (o : Result Batch)
        → ◌>>=◌ {B = Step} o (λ k. ok (k.events, k.board, after_batch a s k)) ≡ ok r
        → IsQuiet b r.2.active_motions
    left (err e) ran = absurd (cc)
    left (ok k) ran =
        let same : (k.events, k.board, after_batch a s k) ≡ r = cc in
        subst (λ (r : Step). IsQuiet b r.2.active_motions) same
          (drop_moves_of-IsQuiet k.captured_this_batch b _
            (still_active-IsQuiet a b s.active_motions settled))

-- A step of `a` and then one of `b` are a step of `a + b`: the same events with the same instants, the
-- same board, the same motions left in flight, the same cooldowns and the same clock, or the same exception.
-- It is asked that nothing arrives within `a`; or else that nothing arrives later than `a` and not later than
-- `a + b`, that no piece has two motions, and that no piece in flight rests.
pub steps_add :
    (a b : ℕ) (board : Board) (s : RealTimeArbiter)
    → IsQuiet a s.active_motions
      ⊎ IsSettled a b s.active_motions × Distinct s.active_motions × FlyRested s
    → two_steps a b board s ≡ advance_time (a + b) board s
steps_add a b board s (inl quiet) =
    rw (advance_time-IsQuiet a board s quiet)
      (same_step (advance_time b board (waited a s)) ∙ quiet_first a b board s quiet)
steps_add a b board s (inr (settled, distinct, rested)) =
    waits (advance_time a board s)
      (λ r ran. advance_time-IsQuiet b r.1 r.2 (advance_time-flights a b board s r settled ran))
    ∙ sym (quiet_last a b board s settled distinct rested)
  where
    waits :
        (o : Result Step)
        → ((r : Step) → o ≡ ok r → advance_time b r.1 r.2 ≡ ok ([], r.1, waited b r.2))
        → ◌>>=◌ {B = Step} o (λ (events, c, t).
          ◌>>=◌ {B = Step} (advance_time b c t) (λ (more, d, u). ok (events ++ more, d, u)))
          ≡ ◌>>=◌ {B = Step} o (λ (events, c, t). ok (events, c, waited b t))
    waits (err e) h = refl
    waits (ok (events, c, t)) h = rw (h (events, c, t) refl, append-nil events) refl
