-- ===== src/Server/Match/Cases.antt =====
-- A command of a player by cases: what holds of every way that `apply` and its visitor may end.
use kung_fu_chess.Prelude.{◌≡◌, refl, Bool-cases, inl, inr, [], List, Result, ok, ◌>>=◌, Option, ℕ}
use kung_fu_chess.Model.{PieceColor}
use kung_fu_chess.Model.Board.{piece_at}
use kung_fu_chess.Rules.{MoveReason, not_your_piece, opponent_disconnected, match_not_started}
use kung_fu_chess.Engine.{GameCore, MoveResult, request_move, request_jump}
use kung_fu_chess.Server.Messages.{
  ClientMessage, login, play, create_room, resign, join_room, move_request, jump_request,
}
use kung_fu_chess.Server.Match.State.{
  Match, MatchState, waiting, running, frozen, finished, Effect, owns_piece_at,
}
use kung_fu_chess.Server.Match.Apply.{id_of, reject, resigns, answer, command, apply_in}

module _ {κ} (P : Result (List Effect × Match) → Type κ) (from : PieceColor) (m : Match)
    (nothing : P (ok ([], m))) (refused : (why : MoveReason) → P (ok (reject from why m))) where
  pub command_cases :
      (message : ClientMessage)
      → ((id : Option ℕ) (x : Result (MoveResult × GameCore))
          → P (x >>= λ r. ok (answer from id m r)))
      → P (command from message m)
  unfolding command
  command_cases (move_request s d) answered = elim (Bool-cases (owns_piece_at from s m)) [
    | inl o ↦
        simp o (answered (id_of (piece_at m.core.board s)) (request_move m.factory m.core s d))
    | inr o ↦ simp o (refused not_your_piece)
  ]
  command_cases (jump_request cell) answered = elim (Bool-cases (owns_piece_at from cell m)) [
    | inl o ↦
        simp o (answered (id_of (piece_at m.core.board cell)) (request_jump m.factory m.core cell))
    | inr o ↦ simp o (refused not_your_piece)
  ]
  command_cases (login _ _) answered = nothing
  command_cases play answered = nothing
  command_cases create_room answered = nothing
  command_cases resign answered = nothing
  command_cases (join_room _) answered = nothing

  -- A resignation counts while the match is not over, and the visitor is reached while it runs.
  pub apply_in_cases :
      (s : MatchState) (message : ClientMessage)
      → (¬ (s ≡ finished) → P (ok (resigns from m)))
      → (s ≡ running → P (command from message m))
      → P (apply_in s from message m)
  unfolding apply_in
  apply_in_cases finished message given visited = nothing
  apply_in_cases waiting message given visited = refused match_not_started
  apply_in_cases frozen resign given visited = given (λ e. cc)
  apply_in_cases frozen (login _ _) given visited = refused opponent_disconnected
  apply_in_cases frozen play given visited = refused opponent_disconnected
  apply_in_cases frozen create_room given visited = refused opponent_disconnected
  apply_in_cases frozen (join_room _) given visited = refused opponent_disconnected
  apply_in_cases frozen (move_request _ _) given visited = refused opponent_disconnected
  apply_in_cases frozen (jump_request _) given visited = refused opponent_disconnected
  apply_in_cases running resign given visited = given (λ e. cc)
  apply_in_cases running (login _ _) given visited = visited refl
  apply_in_cases running play given visited = visited refl
  apply_in_cases running create_room given visited = visited refl
  apply_in_cases running (join_room _) given visited = visited refl
  apply_in_cases running (move_request _ _) given visited = visited refl
  apply_in_cases running (jump_request _) given visited = visited refl
