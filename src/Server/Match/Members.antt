-- ===== src/Server/Match/Members.antt =====
-- Joining, watching, leaving, dropping out, returning, and queueing a command.
use kung_fu_chess.Prelude.{
  string_eq, ℕ, ◌+◌, ◌==◌, leb, length, Bool, true, false, not, ◌||◌, if◌then◌else◌, Option, none,
  some, List, [], ◌∷◌, ◌++◌, Result, ok, ◌>>=◌,
}
use kung_fu_chess.Model.{PieceColor, white, black}
use kung_fu_chess.Server.DisconnectWatch.{report_disconnect, cancel}
use kung_fu_chess.Server.Audience.{
  Name, SendFn, CloseFn, seat, watch, unwatch, reseat, username_of, rating_of, both_seats_taken,
}
use kung_fu_chess.Server.Messages.{
  Welcome, welcome, match_start, opponent_reconnected, ClientMessage, snapshot_of,
}
use kung_fu_chess.Server.Match.State.{Match, Effect, sends, wakes, broadcast_and_log}
use kung_fu_chess.Server.Match.Ticking.{tick}

unfoldable pub welcome_for : PieceColor → Bool → Match → Welcome
welcome_for color spectator m = record {
  assigned_color = color;
  board = snapshot_of m.core.board;
  spectator = spectator;
  room = m.room_name;
  history = m.history;
  revision = m.revision;
  white_username = username_of white m.audience;
  black_username = username_of black m.audience;
  white_rating = rating_of white m.audience;
  black_rating = rating_of black m.audience;
}

-- Black is the second seat, so that its join starts the match.
unfoldable pub greet : Name → ℕ → SendFn → Option PieceColor → Match → List Effect
unfolding welcome_for broadcast_and_log
greet name rating send none m = []
greet name rating send (some white) m = sends send (welcome (welcome_for white false m)) ∷ []
greet name rating send (some black) m =
    sends send (welcome (welcome_for black false m))
    ∷ broadcast_and_log
        (match_start (username_of white m.audience) name (rating_of white m.audience) rating) m

unfoldable pub join : Name → ℕ → SendFn → CloseFn → Match → Option PieceColor × List Effect × Match
unfolding greet
join name rating send close m =
    let (assigned, audience) = seat name rating send close m.audience in
    let after = record m { audience = audience } in
    (assigned, greet name rating send assigned after, after)

-- The two messages that a spectator or a returning player is sent.
abbrev pub start_of : Welcome → SendFn → Effect
start_of w send =
    sends send (match_start w.white_username w.black_username w.white_rating w.black_rating)

unfoldable pub join_spectator : SendFn → CloseFn → Match → ℕ × List Effect × Match
unfolding welcome_for
join_spectator send close m =
    let (watcher, audience) = watch send close m.audience in
    let after = record m { audience = audience } in
    let w = welcome_for white true after in
    if watcher == 0 then (0, [], after) else (
      watcher,
      sends send (welcome w) ∷ (if both_seats_taken m.audience then start_of w send ∷ [] else []),
      after,
    )

unfoldable pub leave_spectator : ℕ → Match → Match
leave_spectator watcher m = record m { audience = unwatch watcher m.audience }

abbrev pub max_queued_commands : ℕ
max_queued_commands = 512

unfoldable pub enqueue : PieceColor → ClientMessage → Match → List Effect × Match
enqueue from message m =
    if leb max_queued_commands (length m.queue)
    then ([], record m { dropped_commands = m.dropped_commands + 1 })
    else (
      (if m.has_wake_hook then wakes ∷ [] else []),
      record m { queue = m.queue ++ (from, message) ∷ [] },
    )

unfoldable pub set_wake_hook : Match → Match
set_wake_hook m = record m { has_wake_hook = true }

unfoldable pub on_disconnect : PieceColor → Match → Match
on_disconnect color m = record m { disconnect_watch = report_disconnect color m.disconnect_watch }

unfoldable pub reclaimable_seat_for : Name → Match → Option PieceColor
unfolding string_eq
reclaimable_seat_for name m = elim m.disconnect_watch.watching [
  | none ↦ none
  | some color ↦
      if m.game_over || not (string_eq (username_of color m.audience) name)
      then none
      else some color
]

unfoldable pub reconnect : PieceColor → SendFn → CloseFn → Match → Bool × List Effect × Match
unfolding welcome_for broadcast_and_log
reconnect color send close m =
    let (returns, watch_after) = cancel color m.disconnect_watch in
    let after = record m {
      disconnect_watch = watch_after;
      audience = reseat color send close m.audience;
    } in
    let w = welcome_for color false after in
    if m.game_over
    then (false, [], m)
    else if returns
    then (
      true,
      sends send (welcome w) ∷ start_of w send ∷ broadcast_and_log opponent_reconnected after,
      after,
    )
    else (false, [], m)

-- Whatever may happen to a match, in one sequence.
pub data Happening : Type 0 where
  joins : Name → ℕ → SendFn → CloseFn → Happening
  spectates : SendFn → CloseFn → Happening
  leaves : ℕ → Happening
  queues : PieceColor → ClientMessage → Happening
  hooks : Happening
  drops : PieceColor → Happening
  returns : PieceColor → SendFn → CloseFn → Happening
  ticks : ℕ → ℕ → Happening

abbrev effects_of {ℓ} : {A : Type ℓ} → A × List Effect × Match → List Effect × Match
effects_of (_, effects, m) = (effects, m)

unfoldable pub happen : Happening → Match → Result (List Effect × Match)
unfolding join join_spectator leave_spectator enqueue set_wake_hook on_disconnect reconnect tick
happen (joins name rating send close) m = ok (effects_of (join name rating send close m))
happen (spectates send close) m = ok (effects_of (join_spectator send close m))
happen (leaves watcher) m = ok ([], leave_spectator watcher m)
happen (queues from message) m = ok (enqueue from message m)
happen hooks m = ok ([], set_wake_hook m)
happen (drops color) m = ok ([], on_disconnect color m)
happen (returns color send close) m = ok (effects_of (reconnect color send close m))
happen (ticks now elapsed_ms) m = tick now elapsed_ms m

unfoldable pub happen_all : List Happening → Match → Result (List Effect × Match)
unfolding happen
happen_all [] m = ok ([], m)
happen_all (h ∷ hs) m = do
  (effects, after) ← happen h m
  (others, end) ← happen_all hs after
  ok (effects ++ others, end)
