-- ===== src/Server/Match/Counting.antt =====
-- A countdown of a match, through all that may happen but its player's return.
use kung_fu_chess.Prelude.{
  ℕ, ◌+◌, ◌<◌, ◌≡◌, refl, sym, ap, ◌∙◌, subst, ◌⊎◌, inl, inr, Bool, true, false, Bool-cases, Option,
  none, some, List, [], ok, arith,
}
use kung_fu_chess.Model.{PieceColor, white, black}
use kung_fu_chess.RealTime.{ArrivalEvent}
use kung_fu_chess.Engine.{wait}
use kung_fu_chess.Server.DisconnectWatch.{DisconnectWatch, Tick, advance, report_disconnect, cancel}
use kung_fu_chess.Server.DisconnectWatch.Countdown.{Expires, GoesOn, advance_lem}
use kung_fu_chess.Server.Audience.{SendFn, CloseFn}
use kung_fu_chess.Server.Match.State.{Match, report_result}
use kung_fu_chess.Server.Match.Ticking.{
  advance_board, after_wait, announce_events, announce_resignation, announce_tick,
  advance_disconnect_countdown, schedule_release, settle, tick,
}
use kung_fu_chess.Server.Match.Members.{
  Happening, joins, spectates, leaves, queues, hooks, drops, returns, ticks, join, join_spectator,
  leave_spectator, enqueue, set_wake_hook, on_disconnect, reconnect, happen,
}
use kung_fu_chess.Server.Match.Reports.{
  announce_events-Follows, announce_resignation-Follows, schedule-Follows,
}
use kung_fu_chess.Server.Match.Commanded.{apply_all-Follows}
use kung_fu_chess.Server.Match.Latches.{release-Follows}
use kung_fu_chess.Server.Match.Seating.{IfOk, ok-IfOk, bind-IfOk, apply_all-SameSeats}
use kung_fu_chess.Server.Match.Frames.{
  announce_events-SameSeats, announce_resignation-SameSeats, schedule-SameSeats,
  announce_tick-SameSeats, release-SameSeats, advance_board-SameSeats, tick-parts,
}

advance_board-stays :
    (runs : Bool) (ms : ℕ) (m : Match)
    → IfOk (λ r. m.game_over ≡ true → r.1.game_over ≡ true) (advance_board runs ms m)
unfolding advance_board
advance_board-stays false ms m = ok-IfOk (λ r. m.game_over ≡ true → r.1.game_over ≡ true) _ (λ o. o)
advance_board-stays true ms m =
    bind-IfOk (λ r. m.game_over ≡ true → r.1.game_over ≡ true) (wait ms m.core)
      (λ r. ok (after_wait m r))
      (λ r _. ok-IfOk (λ q. m.game_over ≡ true → q.1.game_over ≡ true) (after_wait m r) (λ o. o))

-- Only its own player ends a countdown.
cancel_other :
    (c d : PieceColor) (w : DisconnectWatch)
    → w.watching ≡ some c
    → ¬ (d ≡ c)
    → cancel d w ≡ (false, w)
unfolding cancel
cancel_other white white w e h = absurd (h refl)
cancel_other black black w e h = absurd (h refl)
cancel_other white black w e h = ground arith
cancel_other black white w e h = ground arith

-- Anything but that player's return.
abbrev pub IsAbsent : PieceColor → Happening → Type 0
IsAbsent color (returns c _ _) = ¬ (c ≡ color)
IsAbsent color _ = Unit

module _ (color : PieceColor) (deadline : ℕ) where
  -- A countdown for the player runs out at that time.
  abbrev pub Runs : DisconnectWatch → Type 0
  Runs w = (w.watching ≡ some color) × (w.deadline ≡ deadline)

  -- The match is over, or counts down.
  abbrev pub Counts : Match → Type 0
  Counts m = (m.game_over ≡ true) ⊎ Runs m.disconnect_watch

  -- The match is over, or its next look at the watch is a look at such a countdown.
  abbrev pub Looks : ℕ → Match → Type 0
  Looks now m =
      (m.game_over ≡ true)
      ⊎ ((w : DisconnectWatch) × (advance now m.disconnect_watch ≡ advance now w) × Runs w)

  -- What a tick makes of it.
  abbrev pub Ticked : ℕ → Match → Type 0
  Ticked now m = Counts m × (deadline < now + 1000000 → m.game_over ≡ true)

  same-Looks :
      (now : ℕ) (m k : Match)
      → k.disconnect_watch ≡ m.disconnect_watch
      → (m.game_over ≡ true → k.game_over ≡ true)
      → Looks now m
      → Looks now k
  same-Looks now m k e stays (inl over) = inl (stays over)
  same-Looks now m k e stays (inr (w, f, r)) = inr (w, ap (λ v. advance now v) e ∙ f, r)

  same-Ticked :
      (now : ℕ) (m k : Match)
      → k.disconnect_watch ≡ m.disconnect_watch
      → (m.game_over ≡ true → k.game_over ≡ true)
      → Ticked now m
      → Ticked now k
  same-Ticked now m k e stays (inl over, late) = (inl (stays over), λ d. stays (late d))
  same-Ticked now m k e stays (inr r, late) = (inr (subst Runs (sym e) r), λ d. stays (late d))

  -- A forfeit, or another second.
  forfeit_over :
      (seconds : Option ℕ) (k : Match) → (announce_tick (some color) seconds k).1.game_over ≡ true
  unfolding announce_tick report_result
  forfeit_over seconds k = ground arith

  second_stays :
      (seconds : Option ℕ) (k : Match)
      → k.game_over ≡ true
      → (announce_tick none seconds k).1.game_over ≡ true
  unfolding announce_tick
  second_stays none k e = e
  second_stays (some s) k e = e

  told-Ticked :
      (now : ℕ) (w : DisconnectWatch) (t : Tick) (k : Match)
      → Runs w
      → Expires now color w (t, k.disconnect_watch) ⊎ GoesOn now color w (t, k.disconnect_watch)
      → Ticked now (announce_tick t.expired_for t.seconds_remaining k).1
  told-Ticked now w t k (watches, ends) (inl (late, who, _, _, _)) =
      rw who (inl (forfeit_over t.seconds_remaining k), λ d. forfeit_over t.seconds_remaining k)
  told-Ticked now w t k (watches, ends) (inr (early, nobody, still, same, _, _, _, _)) = rw nobody (
      same-Ticked now k (announce_tick none t.seconds_remaining k).1
        (announce_tick-SameSeats none t.seconds_remaining k).1 (second_stays t.seconds_remaining k)
        (inr (still, same ∙ ends), λ d. absurd (omega (arith, early, ends, d))))

  countdown-Ticked :
      (now : ℕ) (m : Match) → Looks now m → Ticked now (advance_disconnect_countdown now m).1
  unfolding advance_disconnect_countdown
  countdown-Ticked now m l = elim (Bool-cases m.game_over) [
    | inl over ↦ simp over (inl refl, λ d. refl)
    | inr on ↦
        let (w, same, runs) = on_watch l on in
        let told =
          told-Ticked now w (advance now m.disconnect_watch).0
            (record m { game_over = false; disconnect_watch = (advance now m.disconnect_watch).1 })
            runs
            (subst (λ r. Expires now color w r ⊎ GoesOn now color w r) (sym same)
              (advance_lem now color w runs.0)) in
        simp on told
  ]
    where
      on_watch :
          Looks now m
          → m.game_over ≡ false
          → (w : DisconnectWatch) × (advance now m.disconnect_watch ≡ advance now w) × Runs w
      on_watch (inl over) e = absurd (cc)
      on_watch (inr found) e = found

  settle-Ticked :
      (now : ℕ) (es : List ArrivalEvent) (m : Match) → Looks now m → Ticked now (settle now es m).1
  unfolding settle
  settle-Ticked now es m l =
      let n = (announce_events es m).1 in
      let k = (announce_resignation n.pending_game_over n).1 in
      let c = (advance_disconnect_countdown now k).1 in
      same-Ticked now c (schedule_release now c).1 (schedule-SameSeats now c).1
        (schedule-Follows now c).stays_over
        (countdown-Ticked now k (
          same-Looks now n k (announce_resignation-SameSeats n.pending_game_over n).1
            (announce_resignation-Follows n.pending_game_over n).stays_over
            (same-Looks now m n (announce_events-SameSeats es m).1
              (announce_events-Follows es m).stays_over l)))

  tick-Ticked : (now ms : ℕ) (m : Match) → Looks now m → IfOk (λ r. Ticked now r.1) (tick now ms m)
  tick-Ticked now ms m l =
      let m0 = record m { queue = []; dropped_commands = 0 } in
      tick-parts (Looks now) (Looks now) (Ticked now) (Ticked now) now ms m
        (λ r e.
          same-Looks now m0 r.1 (apply_all-SameSeats m.queue m0 r e).1
            (apply_all-Follows m.queue m0 r e).stays_over (same-Looks now m m0 refl (λ o. o) l))
        (λ runs k h r e.
          same-Looks now k r.1 (advance_board-SameSeats runs ms k r e).1
            (advance_board-stays runs ms k r e) h)
        (λ es k h. settle-Ticked now es k h)
        (λ k h r e.
          same-Ticked now k r.1 (release-SameSeats now k r e).1
            (release-Follows now k r e).stays_over h)

  pub ticks-Ticked :
      (now ms : ℕ) (m : Match) → Looks now m → IfOk (λ r. Ticked now r.1) (happen (ticks now ms) m)
  unfolding happen
  ticks-Ticked now ms m l = tick-Ticked now ms m l

  pub Counts-Looks : (now : ℕ) (m : Match) → Counts m → Looks now m
  Counts-Looks now m (inl over) = inl over
  Counts-Looks now m (inr runs) = inr (m.disconnect_watch, refl, runs)

  reconnect-Counts :
      (other : PieceColor) (send : SendFn) (close : CloseFn) (m : Match)
      → ¬ (other ≡ color)
      → Counts m
      → Counts (reconnect other send close m).2
  unfolding reconnect
  reconnect-Counts other send close m a (inl over) = simp over (inl refl)
  reconnect-Counts other send close m a (inr runs) =
      let refused = cancel_other color other m.disconnect_watch runs.0 a in
      elim (Bool-cases m.game_over) [
        | inl e ↦ simp e (inl refl)
        | inr e ↦ simp (e, refused) (inr runs)
      ]

  pub happen-Counts :
      (h : Happening) (m : Match)
      → IsAbsent color h
      → Counts m
      → IfOk (λ r. Counts r.1) (happen h m)
  unfolding happen join join_spectator leave_spectator enqueue set_wake_hook on_disconnect
      report_disconnect
  happen-Counts (joins _ _ _ _) m a c = ok-IfOk (λ r. Counts r.1) _ c
  happen-Counts (spectates send close) m a c = ok-IfOk (λ r. Counts r.1) _ (ground (arith, c))
  happen-Counts (leaves watcher) m a c = ok-IfOk (λ r. Counts r.1) _ c
  happen-Counts (queues from message) m a c = ok-IfOk (λ r. Counts r.1) _ (ground (arith, c))
  happen-Counts hooks m a c = ok-IfOk (λ r. Counts r.1) _ c
  happen-Counts (drops other) m a c = ok-IfOk (λ r. Counts r.1) _ c
  happen-Counts (returns other send close) m a c =
      ok-IfOk (λ r. Counts r.1) _ (reconnect-Counts other send close m a c)
  happen-Counts (ticks now ms) m a c = λ r e. (tick-Ticked now ms m (Counts-Looks now m c) r e).0
