-- ===== src/RealTime/Timeline.antt =====
-- The instants that a step of time reports.
use kung_fu_chess.Prelude.{
  ℕ, ◌+◌, ◌≤◌, ◌≡◌, refl, inl, inr, Bool-cases, List, [], ◌∷◌, ◌++◌, Result, ok, err, ◌>>=◌,
  Returns, arith,
}
use kung_fu_chess.Model.Board.{Board}
use kung_fu_chess.RealTime.Collision.{ArrivalEvent}
use kung_fu_chess.RealTime.Arbiter.{
  RealTimeArbiter, PendingArrival, Batch, ResolvedArrival, resolve_arrival, record_arrival,
  resolve_one, resolve_all, advance_time, arrivals_of, first_batch, contains_id, after_batch,
}
use kung_fu_chess.RealTime.Pending.{Ordered, arrivals_of-IsStableSort}
use kung_fu_chess.RealTime.Safety.Invariant.{IsSafe}
use kung_fu_chess.RealTime.Safety.Ticks.{SafeAfter, advance_time-IsSafe}

-- Instants do not fall along the events, and lie between two bounds.
abbrev pub Timeline : ℕ → ℕ → List ArrivalEvent → Type 0
Timeline lo hi [] = lo ≤ hi
Timeline lo hi (e ∷ es) = (lo ≤ e.arrived_at_ms) × Timeline e.arrived_at_ms hi es

Timeline-snoc :
    (lo hi : ℕ) (es : List ArrivalEvent) (e : ArrivalEvent)
    → Timeline lo hi es
    → hi ≤ e.arrived_at_ms
    → Timeline lo e.arrived_at_ms (es ++ e ∷ [])
Timeline-snoc lo hi [] e t h = (omega arith, omega arith)
Timeline-snoc lo hi (d ∷ es) e t h = (t.0, Timeline-snoc d.arrived_at_ms hi es e t.1 h)

Timeline-le :
    (lo hi top : ℕ) (es : List ArrivalEvent) → Timeline lo hi es → hi ≤ top → Timeline lo top es
Timeline-le lo hi top [] t h = omega arith
Timeline-le lo hi top (e ∷ es) t h = (t.0, Timeline-le e.arrived_at_ms hi top es t.1 h)

resolve_one-Timeline :
    (start ms now : ℕ) (p : PendingArrival) (batch batch' : Batch)
    → Timeline start (start + now) batch.events
    → now ≤ p.time_into_tick_ms
    → resolve_one start ms p batch ≡ ok batch'
    → Timeline start (start + p.time_into_tick_ms) batch'.events
unfolding resolve_one
resolve_one-Timeline start ms now p batch batch' t h e =
    elim (Bool-cases (contains_id p.motion.moving_piece.id batch.captured_this_batch)) [
      | inl gone ↦
          let same : batch ≡ batch' = ok_inj batch batch' (rw gone at e) in
          rw (← same) (
            Timeline-le start (start + now) (start + p.time_into_tick_ms) batch.events t
              (omega arith))
      | inr here ↦ arrived (resolve_arrival p.motion batch.board) (rw here at e)
    ]
  where
    ok_inj : (x y : Batch) → ◌≡◌ {A = Result Batch} (ok x) (ok y) → x ≡ y
    ok_inj x y q = cc

    arrived :
        (o : Result (ResolvedArrival × Board))
        → (o >>= λ q. ok (record_arrival start ms p batch q.0 q.1)) ≡ ok batch'
        → Timeline start (start + p.time_into_tick_ms) batch'.events
    arrived (err x) q = cc
    arrived (ok (r, b)) q =
        let same = ok_inj (record_arrival start ms p batch r b) batch' q in
        rw (← same) (Timeline-snoc start (start + now) batch.events _ t (omega arith))

resolve_all-Timeline :
    (start ms now : ℕ) (ps : List PendingArrival) (batch batch' : Batch)
    → Timeline start (start + now) batch.events
    → Ordered now ms ps
    → resolve_all start ms ps batch ≡ ok batch'
    → Timeline start (start + ms) batch'.events
unfolding resolve_all
resolve_all-Timeline start ms now [] batch batch' t h e =
    let same : batch.events ≡ batch'.events = ground arith in
    rw (← same) (Timeline-le start (start + now) (start + ms) batch.events t (omega arith))
resolve_all-Timeline start ms now (p ∷ ps) batch batch' t h e =
    go (resolve_one start ms p batch) refl e
      λ next t' q. resolve_all-Timeline start ms p.time_into_tick_ms ps next batch' t' h.1 q
  where
    go :
        (o : Result Batch)
        → resolve_one start ms p batch ≡ o
        → (o >>= resolve_all start ms ps) ≡ ok batch'
        → ((next : Batch)
            → Timeline start (start + p.time_into_tick_ms) next.events
            → resolve_all start ms ps next ≡ ok batch'
            → Timeline start (start + ms) batch'.events)
        → Timeline start (start + ms) batch'.events
    go (err x) f q rest = cc
    go (ok next) f q rest = rest next (resolve_one-Timeline start ms now p batch next t h.0 f) q

-- What a step of time reports: instants of the step, in order, and the clock at its end.
abbrev pub Reports : ℕ → RealTimeArbiter → List ArrivalEvent × Board × RealTimeArbiter → Type 0
Reports ms a (es, b', a') =
    Timeline a.clock_ms (a.clock_ms + ms) es × (a'.clock_ms ≡ a.clock_ms + ms)

-- From a safe state a step of time returns, moves the clock on by its length, and reports arrivals
-- whose instants never fall and lie between the clock before and after it.
pub advance_time-Reports :
    (ms : ℕ) (b : Board) (a : RealTimeArbiter)
    → IsSafe b a
    → Returns (Reports ms a) (advance_time ms b a)
unfolding advance_time
advance_time-Reports ms b a safe =
    from_batch (resolve_all a.clock_ms ms (arrivals_of ms a) (first_batch ms b a)) refl
      (advance_time-IsSafe ms b a safe)
  where
    from_batch :
        (o : Result Batch)
        → resolve_all a.clock_ms ms (arrivals_of ms a) (first_batch ms b a) ≡ o
        → Returns SafeAfter (o >>= λ q. ok (q.events, q.board, after_batch ms a q))
        → Returns (Reports ms a) (o >>= λ q. ok (q.events, q.board, after_batch ms a q))
    from_batch (err x) f (r, e, s) = absurd (cc)
    from_batch (ok q) f (r, e, s) = (
      (q.events, q.board, after_batch ms a q),
      refl,
      (
        resolve_all-Timeline a.clock_ms ms 0 (arrivals_of ms a) (first_batch ms b a) q (omega arith)
            (arrivals_of-IsStableSort ms a).2.ordered f,
        refl,
      ),
    )
