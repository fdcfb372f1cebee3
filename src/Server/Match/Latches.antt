-- ===== src/Server/Match/Latches.antt =====
-- The same of whole ticks, and of any sequence of what may happen to a match.
use kung_fu_chess.Prelude.{
  ℕ, ◌≡◌, refl, subst, Bool, true, false, not, ◌&&◌, Bool-cases, inl, inr, Option, none, some, List,
  [], ◌∷◌, ◌++◌, map, Result, ok, err, ◌>>=◌, arith,
}
use kung_fu_chess.Model.{PieceColor, white, black}
use kung_fu_chess.RealTime.{ArrivalEvent}
use kung_fu_chess.Engine.{GameCore, wait}
use kung_fu_chess.Server.Audience.{
  SendFn, Name, broadcast, reseat, release_all, username_of, rating_of,
}
use kung_fu_chess.Server.Messages.{ServerMessage, match_start, opponent_reconnected}
use kung_fu_chess.Server.Match.State.{Match, Effect, closes, state, broadcast_and_log}
use kung_fu_chess.Server.Match.Apply.{apply_all}
use kung_fu_chess.Server.Match.Ticking.{
  is_running, advance_board, after_wait, release_participants, release_if_due, settle, tick,
  release_is_due,
}
use kung_fu_chess.Server.Match.Members.{
  Happening, joins, spectates, leaves, queues, hooks, drops, returns, ticks, join, join_spectator,
  leave_spectator, enqueue, set_wake_hook, on_disconnect, reconnect, happen, happen_all, greet,
}
use kung_fu_chess.Server.Match.Reports.{
  count_reports, Follows, Follows-trans, quiet-Follows, count-write_to, count-closes,
  settle-Follows,
}
use kung_fu_chess.Server.Match.Commanded.{
  OkFollows, ok-inj, ok-Follows, bind-Follows, seq-Follows, apply_all-Follows,
}

pub release-Follows : (now : ℕ) (m : Match) → OkFollows m (release_if_due now m)
unfolding release_if_due release_participants
release-Follows now m = elim (Bool-cases (not m.released && release_is_due now m.release_at)) [
  | inl due ↦ simp due (
      bind-Follows m (release_all m.audience)
        (λ ss. (map (λ s. closes s) ss, record m { released = true }))
        (λ ss. record {
          reported = omega (arith, count-closes ss);
          stays_over = λ o. o;
          rests = λ o. refl;
        }))
  | inr early ↦ simp early (ok-Follows m _ (quiet-Follows m [] refl))
]

-- The parts of a tick put together.
finish-Follows :
    (m n k : Match) (applied said : List Effect) (z : Result (List Effect × Match))
    → Follows m (applied, n)
    → Follows n (said, k)
    → OkFollows k z
    → OkFollows m (z >>= λ r. ok (applied ++ (said ++ r.0), r.1))
finish-Follows m n k applied said (err _) f g h r e = cc
finish-Follows m n k applied said (ok v) f g h r e =
    subst (λ w. Follows m w) (ok-inj (applied ++ (said ++ v.0), v.1) r e)
      (Follows-trans m n applied (said ++ v.0, v.1) f (Follows-trans n k said v g (h v refl)))

module _ (now ms : ℕ) (m : Match) where
  abbrev rest_of_tick : List Effect → List ArrivalEvent × Match → Result (List Effect × Match)
  rest_of_tick applied (events, n) =
      let (said, k) = settle now events n in
      release_if_due now k >>= λ r. ok (applied ++ (said ++ r.0), r.1)

  rest_of_tick-Follows :
      (applied : List Effect) (events : List ArrivalEvent) (n : Match)
      → Follows m (applied, n)
      → OkFollows m (rest_of_tick applied (events, n))
  rest_of_tick-Follows applied events n f =
      let (said, k) = settle now events n in
      finish-Follows m n k applied said (release_if_due now k) f (settle-Follows now events n)
        (release-Follows now k)

  board-Follows :
      (run_it : Bool) (applied : List Effect) (n : Match)
      → Follows m (applied, n)
      → (m.game_over ≡ true → run_it ≡ false)
      → OkFollows m (advance_board run_it ms n >>= rest_of_tick applied)
  unfolding advance_board
  board-Follows false applied n f on = rest_of_tick-Follows applied [] n f
  board-Follows true applied n f on = waited (wait ms n.core)
    where
      waited :
          (w : Result (List ArrivalEvent × GameCore))
          → OkFollows m ((w >>= λ r. ok (after_wait n r)) >>= rest_of_tick applied)
      waited (err _) r e = cc
      waited (ok (events, core)) r e =
          rest_of_tick-Follows applied events (after_wait n (events, core)).1
            (record { reported = f.reported; stays_over = f.stays_over; rests = λ o. cc (on o) }) r
            e

  tick-Follows : OkFollows m (tick now ms m)
  unfolding tick state
  tick-Follows = applied_first (apply_all m.queue m0) (apply_all-Follows m.queue m0)
    where
      m0 : Match
      m0 = record m { queue = []; dropped_commands = 0 }

      applied_first :
          (y : Result (List Effect × Match))
          → OkFollows m0 y
          → OkFollows m
              (y >>= λ r. advance_board (is_running (state m)) ms r.1 >>= rest_of_tick r.0)
      applied_first (err _) f r e = cc
      applied_first (ok (applied, n)) f r e =
          let g = f (applied, n) refl in
          board-Follows (is_running (state m)) applied n
            (record { reported = g.reported; stays_over = g.stays_over; rests = g.rests })
            (λ o. simp o refl) r e

module _ (m : Match) where
  abbrev KeepsCore : List Effect × Match → Type 0
  KeepsCore r =
      (count_reports r.0 ≡ 0)
      × (r.1.result_reported ≡ m.result_reported)
      × (r.1.game_over ≡ m.game_over)
      × (r.1.core ≡ m.core)

  KeepsCore-Follows : (r : List Effect × Match) → KeepsCore r → Follows m r
  KeepsCore-Follows r (e, f, g, h) = record {
    reported = rw (e, f) (omega arith);
    stays_over = λ o. cc (g, o);
    rests = λ o. h;
  }

count-broadcast :
    (message : ServerMessage) (m : Match) → count_reports (broadcast_and_log message m) ≡ 0
unfolding broadcast_and_log
count-broadcast message m = count-write_to (broadcast m.audience) message

count-greet :
    (name : Name) (rating : ℕ) (send : SendFn) (o : Option PieceColor) (m : Match)
    → count_reports (greet name rating send o m) ≡ 0
unfolding greet
count-greet name rating send none m = refl
count-greet name rating send (some white) m = refl
count-greet name rating send (some black) m =
    count-broadcast
      (match_start (username_of white m.audience) name (rating_of white m.audience) rating) m

happen-Follows : (h : Happening) (m : Match) → OkFollows m (happen h m)
unfolding happen join join_spectator leave_spectator enqueue set_wake_hook on_disconnect reconnect
    broadcast_and_log
happen-Follows (joins name rating send close) m =
    ok-Follows m _ (KeepsCore-Follows m _ (count-greet name rating send _ _, refl, refl, refl))
happen-Follows (spectates send close) m = ok-Follows m _ (KeepsCore-Follows m _ (ground arith))
happen-Follows (leaves watcher) m = ok-Follows m _ (KeepsCore-Follows m _ (refl, refl, refl, refl))
happen-Follows (queues from message) m = ok-Follows m _ (KeepsCore-Follows m _ (ground arith))
happen-Follows hooks m = ok-Follows m _ (KeepsCore-Follows m _ (refl, refl, refl, refl))
happen-Follows (drops color) m = ok-Follows m _ (KeepsCore-Follows m _ (refl, refl, refl, refl))
happen-Follows (returns color send close) m = ok-Follows m _ (
    KeepsCore-Follows m _ (
      ground (
        arith,
        count-write_to (broadcast (reseat color send close m.audience)) opponent_reconnected,
      )))
happen-Follows (ticks now ms) m = tick-Follows now ms m

-- Whatever happens to a match, in any order and as often, if all of it returns: the result is reported once if it has not
-- been reported before and is reported at the end, and not at all otherwise; a match that is over
-- stays over; and nothing of the board, of its motions or of its clock changes any more.
pub happen_all-Follows :
    (hs : List Happening) (m : Match) (r : List Effect × Match)
    → happen_all hs m ≡ ok r
    → Follows m r
unfolding happen_all
happen_all-Follows [] m r e = ok-Follows m _ (quiet-Follows m [] refl) r e
happen_all-Follows (h ∷ hs) m r e =
    seq-Follows m _ (happen_all hs) (happen-Follows h m) (happen_all-Follows hs) r e
