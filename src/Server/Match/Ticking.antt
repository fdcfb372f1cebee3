-- ===== src/Server/Match/Ticking.antt =====
-- Match::tick and the parts of it that are functions of their own in the source.
use kung_fu_chess.Prelude.{
  has_value, ℕ, ◌+◌, ◌*◌, ◌%◌, Bool, true, false, not, ◌&&◌, leb, if◌then◌else◌, Option, none, some,
  List, [], ◌∷◌, ◌++◌, map, Result, ok, ◌>>=◌,
}
use kung_fu_chess.Model.{PieceColor, opposite_of}
use kung_fu_chess.RealTime.{ArrivalEvent}
use kung_fu_chess.RealTime.Observers.{GameOverObserver, new_observer, observe, is_game_over}
use kung_fu_chess.Engine.{GameCore, wait}
use kung_fu_chess.Server.DisconnectWatch.{advance, clear}
use kung_fu_chess.Server.Audience.{release_all}
use kung_fu_chess.Server.Messages.{board_update, game_ended, opponent_disconnected}
use kung_fu_chess.Server.Match.State.{
  Match, MatchState, running, Effect, closes, state, broadcast_and_log, report_result,
  GameEndReason, decisive, draw, disconnect,
}
use kung_fu_chess.Server.Match.Apply.{apply_all}

-- One part of a tick after another.
abbrev pub then_do : (Match → List Effect × Match) → List Effect × Match → List Effect × Match
then_do f (effects, m) = let (others, end) = f m in (effects ++ others, end)

abbrev pub is_running : MatchState → Bool
is_running running = true
is_running _ = false

-- std::uint64_t.
abbrev next_revision : List ArrivalEvent → ℕ → ℕ
next_revision [] r = r
next_revision (_ ∷ _) r = (r + 1) % 18446744073709551616

abbrev pub after_wait : Match → List ArrivalEvent × GameCore → List ArrivalEvent × Match
after_wait m (events, core) = (
  events,
  record m {
    core = core;
    history = m.history ++ events;
    revision = next_revision events m.revision;
  },
)

unfoldable pub advance_board : Bool → ℕ → Match → Result (List ArrivalEvent × Match)
advance_board false ms m = ok ([], m)
advance_board true ms m = wait ms m.core >>= λ r. ok (after_wait m r)

abbrev pub reason_for : Option PieceColor → GameEndReason
reason_for none = draw
reason_for (some _) = decisive

abbrev pub announced_winner : GameOverObserver → Option PieceColor
announced_winner o = if o.draw then none else o.winner

unfoldable pub announce_ending : GameOverObserver → Match → List Effect × Match
unfolding broadcast_and_log report_result is_game_over
announce_ending o m =
    let winner = announced_winner o in
    if is_game_over o
    then then_do (report_result (reason_for winner) winner)
        (broadcast_and_log (game_ended winner) m, record m { game_over = true })
    else ([], m)

-- What a tick says of its arrivals.
unfoldable pub announce_events : List ArrivalEvent → Match → List Effect × Match
unfolding announce_ending broadcast_and_log
announce_events [] m = ([], m)
announce_events (e ∷ es) m =
    then_do (announce_ending (observe new_observer (e ∷ es)))
      (broadcast_and_log (board_update (e ∷ es) m.revision) m, m)

-- A resignation that waits to be announced.
unfoldable pub announce_resignation : Option (Option PieceColor) → Match → List Effect × Match
unfolding broadcast_and_log report_result
announce_resignation none m = ([], m)
announce_resignation (some winner) m =
    let (effects, after) =
      then_do (report_result decisive winner) (broadcast_and_log (game_ended winner) m, m) in
    (effects, record after { pending_game_over = none })

unfoldable pub announce_tick : Option PieceColor → Option ℕ → Match → List Effect × Match
unfolding broadcast_and_log report_result
announce_tick (some loser) seconds m =
    let winner = some (opposite_of loser) in
    then_do (report_result disconnect winner)
      (broadcast_and_log (game_ended winner) m, record m { game_over = true })
announce_tick none (some seconds) m = (broadcast_and_log (opponent_disconnected seconds) m, m)
announce_tick none none m = ([], m)

unfoldable pub advance_disconnect_countdown : ℕ → Match → List Effect × Match
unfolding announce_tick
advance_disconnect_countdown now m =
    let (t, w) = advance now m.disconnect_watch in
    if m.game_over
    then ([], record m { disconnect_watch = clear m.disconnect_watch })
    else announce_tick t.expired_for t.seconds_remaining (record m { disconnect_watch = w })

unfoldable pub schedule_release : ℕ → Match → List Effect × Match
schedule_release now m =
    if m.game_over && not (has_value m.release_at)
    then ([], record m { release_at = some (now + m.release_delay_ms * 1000000) })
    else ([], m)

unfoldable pub release_participants : Match → Result (List Effect × Match)
release_participants m = release_all m.audience >>= λ sockets.
    ok (map (λ s. closes s) sockets, record m { released = true })

abbrev pub release_is_due : ℕ → Option ℕ → Bool
release_is_due now none = false
release_is_due now (some at) = leb at now

unfoldable pub release_if_due : ℕ → Match → Result (List Effect × Match)
unfolding release_participants
release_if_due now m =
    if not m.released && release_is_due now m.release_at then release_participants m else ok ([], m)

-- The part of a tick between the board's and the release.
unfoldable pub settle : ℕ → List ArrivalEvent → Match → List Effect × Match
unfolding announce_events announce_resignation advance_disconnect_countdown schedule_release
settle now events m = then_do (schedule_release now) (
    then_do (advance_disconnect_countdown now)
      (then_do (λ n. announce_resignation n.pending_game_over n) (announce_events events m)))

-- `now` in nanoseconds of the steady clock, `elapsed_ms` in milliseconds.
unfoldable pub tick : ℕ → ℕ → Match → Result (List Effect × Match)
unfolding advance_board settle release_if_due
tick now elapsed_ms m = do
  (applied, m1) ← apply_all m.queue (record m { queue = []; dropped_commands = 0 })
  (events, m2) ← advance_board (is_running (state m)) elapsed_ms m1
  let (said, m3) = settle now events m2
  (released, m4) ← release_if_due now m3
  ok (applied ++ (said ++ released), m4)
