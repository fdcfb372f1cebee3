-- ===== src/Server/DisconnectWatch/Countdown.antt =====
-- What a sequence of calls on a DisconnectWatch keeps, and what a countdown says and when it ends.
use kung_fu_chess.Prelude.{
  has_value, ℕ, ◌+◌, ◌*◌, ◌/◌, ◌≤◌, ◌<◌, ◌≡◌, refl, ◌⊎◌, inl, inr, false, ◌||◌, ◌==◌, Option, none,
  some, List, [], ◌∷◌, arith, Bool-cases,
}
use kung_fu_chess.Model.{PieceColor}
use kung_fu_chess.Server.DisconnectWatch.Defs.{
  DisconnectWatch, Tick, report_disconnect, ms_until, open_countdown, count_down, advance, cancel,
  clear, said, WatchCall, reports, advances, cancels, clears, call, call_all,
}

-- The comment on `frozen_` in disconnect_watch.hpp.
abbrev Mirrors : DisconnectWatch → Type 0
Mirrors w = w.frozen ≡ has_value w.pending || has_value w.watching

count_down-Mirrors :
    (now : ℕ) (o : Option PieceColor) (w : DisconnectWatch)
    → w.watching ≡ o
    → w.pending ≡ none
    → w.frozen ≡ has_value o
    → Mirrors (count_down now o w).1
unfolding count_down
count_down-Mirrors now none w e p h = ground arith
count_down-Mirrors now (some c) w e p h = ground arith

call-Mirrors : (c : WatchCall) (w : DisconnectWatch) → Mirrors w → Mirrors (call c w)
unfolding call report_disconnect cancel clear advance open_countdown
call-Mirrors (reports color) w h = refl
call-Mirrors (cancels color) w h = ground arith
call-Mirrors clears w h = refl
call-Mirrors (advances now) w h =
    let opened = open_countdown now w.pending w.watching w in
    count_down-Mirrors now opened.watching opened refl (ground arith) (ground arith)

-- After any sequence of calls, starting where the flag is right, `frozen` is set exactly when a
-- drop waits for its countdown or a countdown runs.
call_all-Mirrors : (cs : List WatchCall) (w : DisconnectWatch) → Mirrors w → Mirrors (call_all cs w)
unfolding call_all
call_all-Mirrors [] w h = h
call_all-Mirrors (c ∷ cs) w h = call_all-Mirrors cs (call c w) (call-Mirrors c w h)

-- What a tick of a running countdown may do.
abbrev pub Expires : ℕ → PieceColor → DisconnectWatch → Tick × DisconnectWatch → Type 0
Expires now color w (t, v) =
    (w.deadline < now + 1000000)
    × (t.expired_for ≡ some color)
    × (t.seconds_remaining ≡ none)
    × (v.watching ≡ none)
    × (v.frozen ≡ false)

-- Whole seconds, rounded up.
abbrev pub Says : ℕ → DisconnectWatch → ℕ → Type 0
Says now w s =
    (1 ≤ s) × (ms_until w.deadline now ≤ s * 1000) × (s * 1000 < ms_until w.deadline now + 1000)

abbrev pub GoesOn : ℕ → PieceColor → DisconnectWatch → Tick × DisconnectWatch → Type 0
GoesOn now color w (t, v) =
    (now + 1000000 ≤ w.deadline)
    × (t.expired_for ≡ none)
    × (v.watching ≡ some color)
    × (v.deadline ≡ w.deadline)
    × (s : ℕ) × Says now w s
    × (v.last_reported_second ≡ some s)
    × ((t.seconds_remaining ≡ some s) × (¬ (w.last_reported_second ≡ some s))
        ⊎ ((t.seconds_remaining ≡ none) × (w.last_reported_second ≡ some s)))

not_said : (last : Option ℕ) (s : ℕ) → said last s ≡ false → ¬ (last ≡ some s)
unfolding said
not_said last s fresh told = ground (arith, fresh, told)

count_down-GoesOn :
    (now : ℕ) (color : PieceColor) (w : DisconnectWatch)
    → w.watching ≡ some color
    → Expires now color w (count_down now (some color) w)
      ⊎ GoesOn now color w (count_down now (some color) w)
unfolding count_down
count_down-GoesOn now color w e = elim (Bool-cases (ms_until w.deadline now == 0)) [
  | inl over ↦ inl (rw over (ground arith, refl, refl, refl, refl))
  | inr on ↦
      elim (Bool-cases (said w.last_reported_second ((ms_until w.deadline now + 999) / 1000))) [
        | inl same ↦ inr (
            rw (on, same)
              (
                ground arith,
                refl,
                e,
                refl,
                (ms_until w.deadline now + 999) / 1000,
                (ground arith, omega arith, omega arith),
                ground arith,
                inr (refl, ground arith),
              ))
        | inr fresh ↦ inr (
            rw (on, fresh)
              (
                ground arith,
                refl,
                e,
                refl,
                (ms_until w.deadline now + 999) / 1000,
                (ground arith, omega arith, omega arith),
                refl,
                inl (refl, (λ told. not_said _ _ fresh told)),
              ))
      ]
]

open_running :
    (now : ℕ) (color : PieceColor) (w : DisconnectWatch) (p o : Option PieceColor)
    → w.watching ≡ o
    → o ≡ some color
    → open_countdown now p o w ≡ record w { pending = none; watching = some color }
unfolding open_countdown
open_running now color w none o k e = ground arith
open_running now color w (some c) none k e = cc
open_running now color w (some c) (some d) k e = ground arith

-- While a countdown runs, a tick with less than a millisecond left ends it, naming the player who
-- did not return and unfreezing the game. Any other tick keeps it and its deadline, whatever other
-- drop was reported meanwhile; the second it stands at is the time left rounded up, never 0, and it
-- is told exactly when it is not the one told last.
pub advance_lem :
    (now : ℕ) (color : PieceColor) (w : DisconnectWatch)
    → w.watching ≡ some color
    → Expires now color w (advance now w) ⊎ GoesOn now color w (advance now w)
unfolding advance open_countdown
advance_lem now color w e =
    rw (open_running now color w w.pending w.watching refl e)
      (count_down-GoesOn now color (record w { pending = none; watching = some color }) refl)
