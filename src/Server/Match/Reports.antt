-- ===== src/Server/Match/Reports.antt =====
-- How a match is decided: once, and for good.
use kung_fu_chess.Prelude.{
  has_value, ℕ, ◌+◌, ◌≡◌, refl, ◌∙◌, Bool, true, false, not, ◌&&◌, ◌||◌, Bool-cases, inl, inr,
  if◌then◌else◌, Option, none, some, List, [], ◌∷◌, ◌++◌, map, arith,
}
use kung_fu_chess.Model.{PieceColor}
use kung_fu_chess.Rules.{MoveReason}
use kung_fu_chess.RealTime.{ArrivalEvent}
use kung_fu_chess.RealTime.Observers.{GameOverObserver, new_observer, observe, is_game_over}
use kung_fu_chess.Server.DisconnectWatch.{advance}
use kung_fu_chess.Server.Audience.{SendFn, broadcast, send_to}
use kung_fu_chess.Server.Messages.{
  ServerMessage, board_update, game_ended, move_rejected, reason_name,
}
use kung_fu_chess.Server.Match.State.{
  Match, Effect, sends, closes, reports, wakes, GameEndReason, decisive, write_to,
  broadcast_and_log, send_to_and_log, report_result,
}
use kung_fu_chess.Server.Match.Apply.{reject}
use kung_fu_chess.Server.Match.Ticking.{
  then_do, announce_ending, announce_events, announce_resignation, announce_tick,
  advance_disconnect_countdown, schedule_release, settle,
}

abbrev pub count_reports : List Effect → ℕ
count_reports [] = 0
count_reports (reports _ _ _ _ ∷ es) = 1 + count_reports es
count_reports (_ ∷ es) = count_reports es

abbrev one_if : Bool → ℕ
one_if true = 1
one_if false = 0

-- What every call keeps, from `m` to the effects and the match that it leaves.
pub record Follows (m : Match) (r : List Effect × Match) : Type 0 where
  pub reported : count_reports r.0 + one_if m.result_reported ≡ one_if r.1.result_reported
  pub stays_over : m.game_over ≡ true → r.1.game_over ≡ true
  pub rests : m.game_over ≡ true → r.1.core ≡ m.core

count-append :
    (xs ys : List Effect) → count_reports (xs ++ ys) ≡ count_reports xs + count_reports ys
count-append [] ys = omega arith
count-append (sends _ _ ∷ xs) ys = count-append xs ys
count-append (closes _ ∷ xs) ys = count-append xs ys
count-append (wakes ∷ xs) ys = count-append xs ys
count-append (reports _ _ _ _ ∷ xs) ys = omega (arith, count-append xs ys)

pub count-write_to :
    (ss : List SendFn) (message : ServerMessage) → count_reports (write_to ss message) ≡ 0
count-write_to [] message = refl
count-write_to (s ∷ ss) message = count-write_to ss message

pub count-closes : (ss : List ℕ) → count_reports (map (λ s. closes s) ss) ≡ 0
count-closes [] = refl
count-closes (s ∷ ss) = count-closes ss

pub Follows-trans :
    (m n : Match) (es : List Effect) (r : List Effect × Match)
    → Follows m (es, n)
    → Follows n r
    → Follows m (es ++ r.0, r.1)
Follows-trans m n es r f g = record {
  reported = omega (arith, count-append es r.0, f.reported, g.reported);
  stays_over = λ o. g.stays_over (f.stays_over o);
  rests = λ o. g.rests (f.stays_over o) ∙ f.rests o;
}

then_do-Follows :
    (m : Match) (f : Match → List Effect × Match) (r : List Effect × Match)
    → Follows m r
    → ((n : Match) → Follows n (f n))
    → Follows m (then_do f r)
then_do-Follows m f (es, n) g h = Follows-trans m n es (f n) g (h n)

-- Messages only, with every field that Follows reads as it was.
pub quiet-Follows : (m : Match) (es : List Effect) → count_reports es ≡ 0 → Follows m (es, m)
quiet-Follows m es e = record {
  reported = omega (arith, e);
  stays_over = λ o. o;
  rests = λ o. refl;
}

pub broadcast-Follows :
    (message : ServerMessage) (m : Match) → Follows m (broadcast_and_log message m, m)
unfolding broadcast_and_log
broadcast-Follows message m =
    quiet-Follows m (write_to (broadcast m.audience) message)
      (count-write_to (broadcast m.audience) message)

pub reject-Follows :
    (from : PieceColor) (why : MoveReason) (m : Match) → Follows m (reject from why m)
unfolding reject send_to_and_log
reject-Follows from why m =
    quiet-Follows m (write_to (send_to from m.audience) (move_rejected (reason_name why)))
      (count-write_to (send_to from m.audience) (move_rejected (reason_name why)))

report_result-Follows :
    (reason : GameEndReason) (winner : Option PieceColor) (m : Match)
    → Follows m (report_result reason winner m)
unfolding report_result
report_result-Follows reason winner m =
    elim (Bool-cases (m.result_reported || not m.has_on_result)) [
      | inl off ↦ simp off (quiet-Follows m [] refl)
      | inr on ↦
          simp on (record { reported = ground arith; stays_over = λ o. o; rests = λ o. refl })
    ]

-- A broadcast, the latch, and the report, as both endings of a tick have it.
ending-Follows :
    (message : ServerMessage) (reason : GameEndReason) (winner : Option PieceColor) (m : Match)
    → Follows m (
        then_do
          (report_result reason winner)
          (broadcast_and_log message m, record m { game_over = true }))
unfolding broadcast_and_log
ending-Follows message reason winner m =
    then_do-Follows m (report_result reason winner) (_, record m { game_over = true })
      (record {
        reported = omega (arith, count-write_to _ message);
        stays_over = λ o. refl;
        rests = λ o. refl;
      })
      (report_result-Follows reason winner)

announce_ending-Follows : (o : GameOverObserver) (m : Match) → Follows m (announce_ending o m)
unfolding announce_ending
announce_ending-Follows o m = elim (Bool-cases (is_game_over o)) [
  | inl e ↦ simp e (ending-Follows _ _ _ m)
  | inr e ↦ simp e (quiet-Follows m [] refl)
]

pub announce_events-Follows :
    (es : List ArrivalEvent) (m : Match) → Follows m (announce_events es m)
unfolding announce_events
announce_events-Follows [] m = quiet-Follows m [] refl
announce_events-Follows (e ∷ es) m =
    then_do-Follows m _ (_, m) (broadcast-Follows (board_update (e ∷ es) m.revision) m)
      (announce_ending-Follows (observe new_observer (e ∷ es)))

pub announce_resignation-Follows :
    (o : Option (Option PieceColor)) (m : Match) → Follows m (announce_resignation o m)
unfolding announce_resignation
announce_resignation-Follows none m = quiet-Follows m [] refl
announce_resignation-Follows (some winner) m =
    let f =
      then_do-Follows m (report_result decisive winner) (broadcast_and_log (game_ended winner) m, m)
        (broadcast-Follows (game_ended winner) m) (report_result-Follows decisive winner) in
    record { reported = f.reported; stays_over = f.stays_over; rests = f.rests }

announce_tick-Follows :
    (loser : Option PieceColor) (seconds : Option ℕ) (m : Match)
    → Follows m (announce_tick loser seconds m)
unfolding announce_tick
announce_tick-Follows (some loser) seconds m = ending-Follows _ _ _ m
announce_tick-Follows none (some seconds) m = broadcast-Follows _ m
announce_tick-Follows none none m = quiet-Follows m [] refl

if-Follows :
    (m : Match) (b : Bool) (r s : List Effect × Match)
    → Follows m r
    → Follows m s
    → Follows m (if b then r else s)
if-Follows m true r s f g = f
if-Follows m false r s f g = g

countdown-Follows : (now : ℕ) (m : Match) → Follows m (advance_disconnect_countdown now m)
unfolding advance_disconnect_countdown
countdown-Follows now m =
    let (t, w) = advance now m.disconnect_watch in
    let f =
      announce_tick-Follows t.expired_for t.seconds_remaining (record m { disconnect_watch = w }) in
    if-Follows m m.game_over _ _
      (record { reported = omega arith; stays_over = λ o. o; rests = λ o. refl })
      (record { reported = f.reported; stays_over = f.stays_over; rests = f.rests })

pub schedule-Follows : (now : ℕ) (m : Match) → Follows m (schedule_release now m)
unfolding schedule_release
schedule-Follows now m = elim (Bool-cases (m.game_over && not (has_value m.release_at))) [
  | inl e ↦ simp e (record { reported = omega arith; stays_over = λ o. o; rests = λ o. refl })
  | inr e ↦ simp e (quiet-Follows m [] refl)
]

pub settle-Follows :
    (now : ℕ) (events : List ArrivalEvent) (m : Match) → Follows m (settle now events m)
unfolding settle
settle-Follows now events m =
    then_do-Follows m _ _
      (then_do-Follows m _ _
        (then_do-Follows m _ _ (announce_events-Follows events m)
          (λ n. announce_resignation-Follows n.pending_game_over n))
        (countdown-Follows now))
      (schedule-Follows now)
