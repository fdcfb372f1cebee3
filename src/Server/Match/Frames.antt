-- ===== src/Server/Match/Frames.antt =====
-- What each part of a tick leaves as it was, and a tick as its parts.
use kung_fu_chess.Prelude.{
  ℕ, refl, Bool, true, false, not, ◌&&◌, Bool-cases, inl, inr, Option, List, [], ◌∷◌, ◌++◌, ok,
  arith, map,
}
use kung_fu_chess.Server.Audience.{release_all}
use kung_fu_chess.Model.{PieceColor}
use kung_fu_chess.RealTime.{ArrivalEvent}
use kung_fu_chess.Engine.{wait}
use kung_fu_chess.Server.Match.State.{Match, closes, state, report_result}
use kung_fu_chess.Server.Match.Seating.{SameSeats, SameAfter, IfOk, ok-IfOk, bind-IfOk}
use kung_fu_chess.Server.Match.Apply.{apply_all}
use kung_fu_chess.Server.Match.Ticking.{
  is_running, advance_board, after_wait, announce_ending, announce_events, announce_resignation,
  announce_tick, schedule_release, release_participants, release_if_due, settle, tick,
  release_is_due,
}

pub announce_events-SameSeats :
    (es : List ArrivalEvent) (m : Match) → SameAfter m (announce_events es m)
unfolding announce_events announce_ending report_result
announce_events-SameSeats [] m = (refl, refl)
announce_events-SameSeats (e ∷ es) m = ground arith

pub announce_resignation-SameSeats :
    (o : Option (Option PieceColor)) (m : Match) → SameAfter m (announce_resignation o m)
unfolding announce_resignation report_result
announce_resignation-SameSeats o m = ground arith

pub schedule-SameSeats : (now : ℕ) (m : Match) → SameAfter m (schedule_release now m)
unfolding schedule_release
schedule-SameSeats now m = ground arith

pub announce_tick-SameSeats :
    (o : Option PieceColor) (s : Option ℕ) (m : Match) → SameAfter m (announce_tick o s m)
unfolding announce_tick report_result
announce_tick-SameSeats o s m = ground arith

pub release-SameSeats : (now : ℕ) (m : Match) → IfOk (λ r. SameAfter m r) (release_if_due now m)
unfolding release_if_due release_participants
release-SameSeats now m = elim (Bool-cases (not m.released && release_is_due now m.release_at)) [
  | inl due ↦ simp due (
      bind-IfOk (λ r. SameAfter m r) (release_all m.audience)
        (λ ss. ok (map (λ s. closes s) ss, record m { released = true }))
        (λ ss _.
          ok-IfOk (λ r. SameAfter m r) (map (λ s. closes s) ss, record m { released = true })
            (refl, refl)))
  | inr early ↦ simp early (ok-IfOk (λ r. SameAfter m r) _ (refl, refl))
]

pub advance_board-SameSeats :
    (runs : Bool) (ms : ℕ) (m : Match) → IfOk (λ r. SameSeats m r.1) (advance_board runs ms m)
unfolding advance_board
advance_board-SameSeats false ms m = ok-IfOk (λ r. SameSeats m r.1) _ (refl, refl)
advance_board-SameSeats true ms m =
    bind-IfOk (λ r. SameSeats m r.1) (wait ms m.core) (λ r. ok (after_wait m r))
      (λ r _. ok-IfOk (λ q. SameSeats m q.1) (after_wait m r) (refl, refl))

-- What holds of the parts of a tick that has returned.
module _ (P Q R S : Match → Type 0) (now ms : ℕ) (m : Match)
    (commands : IfOk
      (λ r. P r.1)
      (apply_all m.queue (record m { queue = []; dropped_commands = 0 })))
    (board : (runs : Bool) (k : Match) → P k → IfOk (λ r. Q r.1) (advance_board runs ms k))
    (said : (es : List ArrivalEvent) (k : Match) → Q k → R (settle now es k).1)
    (release : (k : Match) → R k → IfOk (λ r. S r.1) (release_if_due now k)) where
  pub tick-parts : IfOk (λ r. S r.1) (tick now ms m)
  unfolding tick
  tick-parts =
      bind-IfOk (λ r. S r.1) (apply_all m.queue _) _
        (λ a e.
          bind-IfOk (λ r. S r.1) (advance_board (is_running (state m)) ms a.1) _
            (λ b f.
              let k = settle now b.0 b.1 in
              bind-IfOk (λ r. S r.1) (release_if_due now k.1) (λ c. ok (a.0 ++ (k.0 ++ c.0), c.1))
                (λ c g.
                  ok-IfOk (λ r. S r.1) (a.0 ++ (k.0 ++ c.0), c.1)
                    (release k.1
                      (said b.0 b.1 (board (is_running (state m)) a.1 (commands a e) b f)) c g))))
