-- ===== src/Server/Match/Verdicts.antt =====
-- Between its ticks a match that is over has reported its result.
use kung_fu_chess.Prelude.{
  ℕ, ◌≡◌, refl, Bool, true, false, not, ◌&&◌, ◌||◌, Bool-cases, inl, inr, Option, none, some, List,
  [], ◌∷◌, ◌++◌, map, Result, ok, ◌>>=◌, arith,
}
use kung_fu_chess.Model.{PieceColor}
use kung_fu_chess.RealTime.{ArrivalEvent}
use kung_fu_chess.Engine.{GameCore, MoveResult, wait}
use kung_fu_chess.Server.Audience.{release_all}
use kung_fu_chess.Server.Messages.{ClientMessage}
use kung_fu_chess.Server.Match.State.{Match, MatchState, Effect, closes, state, report_result}
use kung_fu_chess.Server.Match.Cases.{command_cases, apply_in_cases}
use kung_fu_chess.Server.Match.Apply.{reject, resigns, answer, command, apply_in, apply, apply_all}
use kung_fu_chess.Server.Match.Seating.{IfOk, ok-IfOk, bind-IfOk}
use kung_fu_chess.Server.Match.Frames.{tick-parts}
use kung_fu_chess.Server.Match.Ticking.{
  advance_board, after_wait, announce_ending, announce_events, announce_resignation, announce_tick,
  advance_disconnect_countdown, schedule_release, release_participants, release_if_due, settle,
  tick, release_is_due,
}
use kung_fu_chess.Server.Match.Members.{
  Happening, joins, spectates, leaves, queues, hooks, drops, returns, ticks, join, join_spectator,
  leave_spectator, enqueue, set_wake_hook, on_disconnect, reconnect, happen,
}

-- The result is told, or there is nobody to tell it to.
abbrev pub is_told : Match → Bool
is_told m = m.result_reported || not m.has_on_result

-- In the middle of a tick a resignation may still wait to be told.
abbrev Pends : Match → Type 0
Pends m = m.pending_game_over ≡ none → m.game_over ≡ true → is_told m ≡ true

abbrev pub IsSettled : Match → Type 0
IsSettled m = (m.pending_game_over ≡ none) × (m.game_over ≡ true → is_told m ≡ true)

abbrev KeepsPends : Match → List Effect × Match → Type 0
KeepsPends m r = Pends m → Pends r.1

answer-KeepsPends :
    (from : PieceColor) (id : Option ℕ) (m : Match) (r : MoveResult × GameCore)
    → KeepsPends m (answer from id m r)
unfolding answer reject
answer-KeepsPends from id m (result, core) h = ground (arith, h)

answered-KeepsPends :
    (from : PieceColor) (id : Option ℕ) (m : Match) (x : Result (MoveResult × GameCore))
    → IfOk (λ r. KeepsPends m r) (x >>= λ r. ok (answer from id m r))
answered-KeepsPends from id m x =
    bind-IfOk (λ r. KeepsPends m r) x (λ r. ok (answer from id m r))
      (λ a _. ok-IfOk (λ r. KeepsPends m r) (answer from id m a) (answer-KeepsPends from id m a))

command-KeepsPends :
    (from : PieceColor) (message : ClientMessage) (m : Match)
    → IfOk (λ r. KeepsPends m r) (command from message m)
unfolding reject
command-KeepsPends from message m =
    command_cases (IfOk (λ r. KeepsPends m r)) from m (ok-IfOk (λ r. KeepsPends m r) _ (λ h. h))
      (λ why. ok-IfOk (λ r. KeepsPends m r) _ (λ h. h)) message
      (λ id x. answered-KeepsPends from id m x)

apply_in-KeepsPends :
    (s : MatchState) (from : PieceColor) (message : ClientMessage) (m : Match)
    → IfOk (λ r. KeepsPends m r) (apply_in s from message m)
unfolding reject resigns
apply_in-KeepsPends s from message m =
    apply_in_cases (IfOk (λ r. KeepsPends m r)) from m (ok-IfOk (λ r. KeepsPends m r) _ (λ h. h))
      (λ why. ok-IfOk (λ r. KeepsPends m r) _ (λ h. h)) s message
      (λ _. ok-IfOk (λ r. KeepsPends m r) _ (λ h e. absurd (cc)))
      (λ _. command-KeepsPends from message m)

apply_all-KeepsPends :
    (cs : List (PieceColor × ClientMessage)) (m : Match)
    → IfOk (λ r. KeepsPends m r) (apply_all cs m)
unfolding apply_all apply
apply_all-KeepsPends [] m = ok-IfOk (λ r. KeepsPends m r) _ (λ h. h)
apply_all-KeepsPends ((from, message) ∷ cs) m =
    bind-IfOk (λ r. KeepsPends m r) (apply_in (state m) from message m) _
      (λ a e.
        bind-IfOk (λ r. KeepsPends m r) (apply_all cs a.1) (λ b. ok (a.0 ++ b.0, b.1))
          (λ b f.
            ok-IfOk (λ r. KeepsPends m r) (a.0 ++ b.0, b.1)
              (λ h.
                apply_all-KeepsPends cs a.1 b f
                  (apply_in-KeepsPends (state m) from message m a e h))))

announce_events-KeepsPends :
    (es : List ArrivalEvent) (m : Match) → KeepsPends m (announce_events es m)
unfolding announce_events announce_ending report_result
announce_events-KeepsPends [] m h = h
announce_events-KeepsPends (e ∷ es) m h = ground (arith, h)

announce_resignation-IsSettled :
    (o : Option (Option PieceColor)) (m : Match)
    → m.pending_game_over ≡ o
    → Pends m
    → IsSettled (announce_resignation o m).1
unfolding announce_resignation report_result
announce_resignation-IsSettled none m e h = (e, h e)
announce_resignation-IsSettled (some w) m e h = ground (arith, h)

countdown-IsSettled :
    (now : ℕ) (m : Match) → IsSettled m → IsSettled (advance_disconnect_countdown now m).1
unfolding advance_disconnect_countdown announce_tick report_result
countdown-IsSettled now m (e, h) = ground (arith, e, h)

schedule-IsSettled : (now : ℕ) (m : Match) → IsSettled m → IsSettled (schedule_release now m).1
unfolding schedule_release
schedule-IsSettled now m (e, h) = ground (arith, h)

settle-IsSettled :
    (now : ℕ) (es : List ArrivalEvent) (m : Match) → Pends m → IsSettled (settle now es m).1
unfolding settle
settle-IsSettled now es m h =
    let n = (announce_events es m).1 in
    schedule-IsSettled now _ (
      countdown-IsSettled now _ (
        announce_resignation-IsSettled n.pending_game_over n refl
          (announce_events-KeepsPends es m h)))

release-IsSettled :
    (now : ℕ) (m : Match) → IfOk (λ r. IsSettled m → IsSettled r.1) (release_if_due now m)
unfolding release_if_due release_participants
release-IsSettled now m = elim (Bool-cases (not m.released && release_is_due now m.release_at)) [
  | inl due ↦ simp due (
      bind-IfOk (λ r. IsSettled m → IsSettled r.1) (release_all m.audience)
        (λ ss. ok (map (λ s. closes s) ss, record m { released = true }))
        (λ ss _. ok-IfOk (λ r. IsSettled m → IsSettled r.1) _ (λ h. h)))
  | inr early ↦ simp early (ok-IfOk (λ r. IsSettled m → IsSettled r.1) _ (λ h. h))
]

advance_board-Pends :
    (runs : Bool) (ms : ℕ) (m : Match) → IfOk (λ r. Pends m → Pends r.1) (advance_board runs ms m)
unfolding advance_board
advance_board-Pends false ms m = ok-IfOk (λ r. Pends m → Pends r.1) _ (λ h. h)
advance_board-Pends true ms m =
    bind-IfOk (λ r. Pends m → Pends r.1) (wait ms m.core) (λ r. ok (after_wait m r))
      (λ r _. ok-IfOk (λ q. Pends m → Pends q.1) (after_wait m r) (λ h. h))

tick-IsSettled : (now ms : ℕ) (m : Match) → IsSettled m → IfOk (λ r. IsSettled r.1) (tick now ms m)
tick-IsSettled now ms m (e, h) =
    tick-parts Pends Pends IsSettled IsSettled now ms m
      (λ r f. apply_all-KeepsPends m.queue _ r f (λ x. h))
      (λ runs k p r f. advance_board-Pends runs ms k r f p) (λ es k p. settle-IsSettled now es k p)
      (λ k s r f. release-IsSettled now k r f s)

pub happen-IsSettled :
    (h : Happening) (m : Match) → IsSettled m → IfOk (λ r. IsSettled r.1) (happen h m)
unfolding happen join join_spectator leave_spectator enqueue set_wake_hook on_disconnect reconnect
happen-IsSettled (ticks now ms) m s = tick-IsSettled now ms m s
happen-IsSettled (joins _ _ _ _) m s = ok-IfOk (λ r. IsSettled r.1) _ s
happen-IsSettled (spectates send close) m (e, h) =
    ok-IfOk (λ r. IsSettled r.1) _ (ground (arith, e, h))
happen-IsSettled (leaves watcher) m s = ok-IfOk (λ r. IsSettled r.1) _ s
happen-IsSettled (queues from message) m (e, h) =
    ok-IfOk (λ r. IsSettled r.1) _ (ground (arith, e, h))
happen-IsSettled hooks m s = ok-IfOk (λ r. IsSettled r.1) _ s
happen-IsSettled (drops color) m s = ok-IfOk (λ r. IsSettled r.1) _ s
happen-IsSettled (returns color send close) m (e, h) =
    ok-IfOk (λ r. IsSettled r.1) _ (ground (arith, e, h))
