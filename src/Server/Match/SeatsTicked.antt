-- ===== src/Server/Match/SeatsTicked.antt =====
-- The seats of a match through its ticks.
use kung_fu_chess.Prelude.{ℕ, refl, false, Bool-cases, inl, inr, List, [], arith}
use kung_fu_chess.RealTime.{ArrivalEvent}
use kung_fu_chess.Server.DisconnectWatch.{
  DisconnectWatch, advance, open_countdown, count_down, clear,
}
use kung_fu_chess.Server.Match.State.{Match, Effect}
use kung_fu_chess.Server.Match.Seating.{
  TakenBy, Seated, SameSeats-Seated, IfOk, apply_all-SameSeats,
}
use kung_fu_chess.Server.Match.Frames.{
  announce_events-SameSeats, announce_resignation-SameSeats, schedule-SameSeats,
  announce_tick-SameSeats, release-SameSeats, advance_board-SameSeats, tick-parts,
}
use kung_fu_chess.Server.Match.Ticking.{
  then_do, announce_events, announce_resignation, announce_tick, advance_disconnect_countdown,
  schedule_release, settle, tick,
}

-- The parts of a tick.
abbrev KeepsSeats : ℕ → Match → List Effect × Match → Type 0
KeepsSeats n m r = Seated n m → Seated n r.1

then_do-KeepsSeats :
    (n : ℕ) (m : Match) (f : Match → List Effect × Match) (r : List Effect × Match)
    → KeepsSeats n m r
    → ((k : Match) → KeepsSeats n k (f k))
    → KeepsSeats n m (then_do f r)
then_do-KeepsSeats n m f (es, k) h g s = g k (h s)

abbrev Dropped : ℕ → DisconnectWatch → Type 0
Dropped n w = TakenBy n w.pending × TakenBy n w.watching

advance-Dropped : (n now : ℕ) (w : DisconnectWatch) → Dropped n w → Dropped n (advance now w).1
unfolding advance open_countdown count_down
advance-Dropped n now w d = ground (arith, d.0, d.1)

countdown-KeepsSeats : (n now : ℕ) (m : Match) → KeepsSeats n m (advance_disconnect_countdown now m)
unfolding advance_disconnect_countdown clear
countdown-KeepsSeats n now m s = elim (Bool-cases m.game_over) [
  | inl over ↦ simp over (record {
    first = s.first;
    second = s.second;
    at_most = s.at_most;
    dropped = tt;
    counted = tt;
  })
  | inr on ↦
      let t = advance now m.disconnect_watch in
      let d = advance-Dropped n now m.disconnect_watch (s.dropped, s.counted) in
      let k = record m { game_over = false; disconnect_watch = t.1 } in
      simp on (
        SameSeats-Seated n k (announce_tick t.0.expired_for t.0.seconds_remaining k).1
          (announce_tick-SameSeats t.0.expired_for t.0.seconds_remaining k)
          (record {
            first = s.first;
            second = s.second;
            at_most = s.at_most;
            dropped = d.0;
            counted = d.1;
          }))
]

settle-KeepsSeats :
    (n now : ℕ) (es : List ArrivalEvent) (m : Match) → KeepsSeats n m (settle now es m)
unfolding settle
settle-KeepsSeats n now es m =
    let said = announce_events es m in
    let resigned = then_do (λ k. announce_resignation k.pending_game_over k) said in
    let counted = then_do (advance_disconnect_countdown now) resigned in
    then_do-KeepsSeats n m (schedule_release now) counted
      (then_do-KeepsSeats n m (advance_disconnect_countdown now) resigned
        (then_do-KeepsSeats n m (λ k. announce_resignation k.pending_game_over k) said
          (SameSeats-Seated n m said.1 (announce_events-SameSeats es m))
          (λ k. SameSeats-Seated n k _ (announce_resignation-SameSeats k.pending_game_over k)))
        (countdown-KeepsSeats n now))
      (λ k. SameSeats-Seated n k _ (schedule-SameSeats now k))

pub tick-KeepsSeats :
    (n now ms : ℕ) (m : Match) → Seated n m → IfOk (λ r. Seated n r.1) (tick now ms m)
tick-KeepsSeats n now ms m s =
    let m0 = record m { queue = []; dropped_commands = 0 } in
    let kept : Seated n m0 = SameSeats-Seated n m m0 (refl, refl) s in
    tick-parts (Seated n) (Seated n) (Seated n) (Seated n) now ms m
      (λ r e. SameSeats-Seated n m0 r.1 (apply_all-SameSeats m.queue m0 r e) kept)
      (λ runs k h r e. SameSeats-Seated n k r.1 (advance_board-SameSeats runs ms k r e) h)
      (λ es k h. settle-KeepsSeats n now es k h)
      (λ k h r e. SameSeats-Seated n k r.1 (release-SameSeats now k r e) h)
