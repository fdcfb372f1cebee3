-- ===== src/Server/Match/Apply.antt =====
-- Match::apply: one command of a player, by the state that the match is in.
use kung_fu_chess.Prelude.{
  ℕ, true, if◌then◌else◌, Option, none, some, List, [], ◌∷◌, ◌++◌, Result, ok, ◌>>=◌,
}
use kung_fu_chess.Model.{PieceColor, Piece, opposite_of}
use kung_fu_chess.Model.Board.{piece_at}
use kung_fu_chess.Rules.{MoveReason, not_your_piece, opponent_disconnected, match_not_started}
use kung_fu_chess.RealTime.{motion_for}
use kung_fu_chess.Engine.{GameCore, MoveResult, request_move, request_jump}
use kung_fu_chess.Server.Messages.{
  ClientMessage, resign, move_request, jump_request, move_rejected, motion_started, reason_name,
}
use kung_fu_chess.Server.Match.State.{
  Match, MatchState, waiting, running, frozen, finished, Effect, state, owns_piece_at,
  broadcast_and_log, send_to_and_log,
}

unfoldable pub reject : PieceColor → MoveReason → Match → List Effect × Match
unfolding send_to_and_log
reject from why m = (send_to_and_log from (move_rejected (reason_name why)) m, m)

unfoldable pub resigns : PieceColor → Match → List Effect × Match
resigns from m =
    ([], record m { game_over = true; pending_game_over = some (some (opposite_of from)) })

abbrev pub id_of : Option Piece → Option ℕ
id_of none = none
id_of (some piece) = some piece.id

-- The motion just started, read back by the id that was captured before the request.
unfoldable pub announce_motion : Option ℕ → Match → List Effect
unfolding broadcast_and_log
announce_motion none m = []
announce_motion (some id) m = elim (motion_for m.core.arbiter id) [
  | none ↦ []
  | some motion ↦ broadcast_and_log (motion_started motion) m
]

unfoldable pub answer : PieceColor → Option ℕ → Match → MoveResult × GameCore → List Effect × Match
unfolding reject announce_motion
answer from piece_id m (result, core) =
    let after = record m { core = core } in
    if result.is_accepted
    then (announce_motion piece_id after, after)
    else reject from result.reason after

-- The visitor over the message, and what follows it.
unfoldable pub command : PieceColor → ClientMessage → Match → Result (List Effect × Match)
unfolding reject owns_piece_at answer
command from (move_request source destination) m =
    if owns_piece_at from source m
    then (request_move m.factory m.core source destination >>= λ r.
        ok (answer from (id_of (piece_at m.core.board source)) m r))
    else ok (reject from not_your_piece m)
command from (jump_request cell) m =
    if owns_piece_at from cell m
    then (request_jump m.factory m.core cell >>= λ r.
        ok (answer from (id_of (piece_at m.core.board cell)) m r))
    else ok (reject from not_your_piece m)
command from _ m = ok ([], m)

unfoldable pub apply_in :
    MatchState → PieceColor → ClientMessage → Match → Result (List Effect × Match)
unfolding reject resigns command
apply_in finished from message m = ok ([], m)
apply_in waiting from message m = ok (reject from match_not_started m)
apply_in frozen from resign m = ok (resigns from m)
apply_in frozen from message m = ok (reject from opponent_disconnected m)
apply_in running from resign m = ok (resigns from m)
apply_in running from message m = command from message m

unfoldable pub apply : PieceColor → ClientMessage → Match → Result (List Effect × Match)
unfolding apply_in state
apply from message m = apply_in (state m) from message m

-- The loop over the commands of a tick.
unfoldable pub apply_all : List (PieceColor × ClientMessage) → Match → Result (List Effect × Match)
unfolding apply
apply_all [] m = ok ([], m)
apply_all ((from, message) ∷ cs) m = do
  (effects, after) ← apply from message m
  (others, end) ← apply_all cs after
  ok (effects ++ others, end)
