-- ===== src/Server/Match/Commands.antt =====
-- Who may command what, and when; and what a full queue does.
use mathlib.Core.List.{append-nil, append_assoc}
use kung_fu_chess.Prelude.{
  ℕ, suc, zero, ◌+◌, ◌-◌, ◌≡◌, ◌≤◌, refl, sym, ◌∙◌, ◌⊎◌, inl, inr, ap, true, false, leb, Bool-cases,
  Option, some, List, [], ◌∷◌, ◌++◌, length, take, Returns, >>=-Returns, arith, length-append,
  leb→le, subst,
}
use kung_fu_chess.Model.{PieceColor, Piece, Position, opposite_of}
use kung_fu_chess.Model.Board.{piece_at, IsValid}
use kung_fu_chess.Rules.{not_your_piece, match_not_started}
use kung_fu_chess.Engine.{GameCore, MoveResult}
use kung_fu_chess.Engine.Requests.{
  request_move-Answers, request_jump-Answers, MayMove, MayJump, Answers, Starts,
}
use kung_fu_chess.RealTime.{create_move, create_jump}
use kung_fu_chess.Server.Audience.{both_seats_taken}
use kung_fu_chess.Server.Messages.{
  ClientMessage, login, play, create_room, resign, join_room, move_request, jump_request,
}
use kung_fu_chess.Server.Match.State.{Match, MatchState, running, Effect, state, owns_piece_at}
use kung_fu_chess.Server.Match.Cases.{apply_in_cases}
use kung_fu_chess.Server.Match.Apply.{reject, resigns, answer, command, apply_in, apply, id_of}
use kung_fu_chess.Server.Match.Members.{enqueue, max_queued_commands}

-- A motion begins on the square that the message names; it is of a piece of the sender, and the core
-- differs by that motion alone.
abbrev pub Commands : PieceColor → ClientMessage → Match → GameCore → Type 0
Commands from (move_request s d) m core =
    (x : Piece) × (piece_at m.core.board s ≡ some x)
    × (x.color ≡ from)
    × MayMove m.core s d
    × Starts m.core (create_move m.factory x s d) core
Commands from (jump_request cell) m core =
    (x : Piece) × (piece_at m.core.board cell ≡ some x)
    × (x.color ≡ from)
    × MayJump m.core cell
    × Starts m.core (create_jump m.factory x cell) core
Commands from _ m core = ⊥

owner :
    (from : PieceColor) (m : Match) (s : Position) (x : Piece)
    → owns_piece_at from s m ≡ true
    → piece_at m.core.board s ≡ some x
    → x.color ≡ from
unfolding owns_piece_at
owner from m s x e at = ground arith

-- What a command does to the core.
abbrev pub Obeys : PieceColor → ClientMessage → Match → List Effect × Match → Type 0
Obeys from message m r =
    (r.1.core ≡ m.core) ⊎ ((state m ≡ running) × Commands from message m r.1.core)

answer-core :
    (from : PieceColor) (id : Option ℕ) (m : Match) (r : MoveResult × GameCore)
    → (answer from id m r).1.core ≡ r.1
unfolding answer reject
answer-core from id m (result, core) = ground arith

command-Obeys :
    (from : PieceColor) (message : ClientMessage) (m : Match)
    → IsValid m.core.board
    → state m ≡ running
    → Returns (Obeys from message m) (command from message m)
unfolding command reject
command-Obeys from (move_request s d) m v t = elim (Bool-cases (owns_piece_at from s m)) [
  | inl e ↦ simp e (
      >>=-Returns {Q = Obeys from (move_request s d) m} _ _
        (request_move-Answers m.factory m.core v s d) (λ r a. (_, refl, made r a e)))
  | inr e ↦ simp e (reject from not_your_piece m, refl, inl refl)
]
  where
    made :
        (r : MoveResult × GameCore)
        → Answers m.core s (MayMove m.core s d) (λ x. create_move m.factory x s d) r
        → owns_piece_at from s m ≡ true
        → Obeys from (move_request s d) m (answer from (id_of (piece_at m.core.board s)) m r)
    made r (inl (_, _, same)) e = inl (answer-core from _ m r ∙ same)
    made r (inr (_, may, (x, at, begins))) e = inr (
      t,
      subst (Commands from (move_request s d) m) (sym (answer-core from _ m r))
          (x, at, owner from m s x e at, may, begins),
    )
command-Obeys from (jump_request cell) m v t = elim (Bool-cases (owns_piece_at from cell m)) [
  | inl e ↦ simp e (
      >>=-Returns {Q = Obeys from (jump_request cell) m} _ _
        (request_jump-Answers m.factory m.core v cell) (λ r a. (_, refl, made r a e)))
  | inr e ↦ simp e (reject from not_your_piece m, refl, inl refl)
]
  where
    made :
        (r : MoveResult × GameCore)
        → Answers m.core cell (MayJump m.core cell) (λ x. create_jump m.factory x cell) r
        → owns_piece_at from cell m ≡ true
        → Obeys from (jump_request cell) m (answer from (id_of (piece_at m.core.board cell)) m r)
    made r (inl (_, _, same)) e = inl (answer-core from _ m r ∙ same)
    made r (inr (_, may, (x, at, begins))) e = inr (
      t,
      subst (Commands from (jump_request cell) m) (sym (answer-core from _ m r))
          (x, at, owner from m cell x e at, may, begins),
    )
command-Obeys from (login _ _) m v t = (([], m), refl, inl refl)
command-Obeys from play m v t = (([], m), refl, inl refl)
command-Obeys from create_room m v t = (([], m), refl, inl refl)
command-Obeys from resign m v t = (([], m), refl, inl refl)
command-Obeys from (join_room _) m v t = (([], m), refl, inl refl)

apply_in-Obeys :
    (s : MatchState) (from : PieceColor) (message : ClientMessage) (m : Match)
    → IsValid m.core.board
    → state m ≡ s
    → Returns (Obeys from message m) (apply_in s from message m)
unfolding reject resigns
apply_in-Obeys s from message m v e =
    apply_in_cases (Returns (Obeys from message m)) from m (_, refl, inl refl)
      (λ why. (_, refl, inl refl)) s message (λ _. (_, refl, inl refl))
      (λ runs. command-Obeys from message m v (e ∙ runs))

-- On a valid board every command of a player is applied without an exception, and either leaves the
-- board, its motions and its clock as they were, or the match is running, and the command is a move or
-- a jump of a piece of that player's own which stands on the square that it names and may do so: the
-- core then lists the motion that the factory makes of it, marks the piece as moving, and is otherwise
-- as it was.
pub apply-Obeys :
    (from : PieceColor) (message : ClientMessage) (m : Match)
    → IsValid m.core.board
    → Returns (Obeys from message m) (apply from message m)
unfolding apply
apply-Obeys from message m v = apply_in-Obeys (state m) from message m v refl

-- A resignation is applied without an exception. If the match is not over and two players are seated
-- or a drop has frozen it, the match is over at once, with the opponent as the winner to announce;
-- otherwise the match is left as it was.
pub resign_lem :
    (from : PieceColor) (m : Match)
    → Returns
        (λ (r : List Effect × Match).
          ((m.game_over ≡ false)
            × ((m.disconnect_watch.frozen ≡ true) ⊎ (both_seats_taken m.audience ≡ true))
            × (r.0 ≡ [])
            × (r.1 ≡ record m {
              game_over = true;
              pending_game_over = some (some (opposite_of from));
            }))
          ⊎ (((m.game_over ≡ true)
                ⊎ ((m.disconnect_watch.frozen ≡ false) × (both_seats_taken m.audience ≡ false)))
              × (r.1 ≡ m)))
        (apply from resign m)
unfolding apply state apply_in resigns reject
resign_lem from m = elim (Bool-cases m.game_over) [
  | inl over ↦ (([], m), simp over refl, inr (inl over, refl))
  | inr on ↦ elim (Bool-cases m.disconnect_watch.frozen) [
    | inl cold ↦ (resigns from m, simp (on, cold) refl, inl (on, inl cold, refl, refl))
    | inr warm ↦ elim (Bool-cases (both_seats_taken m.audience)) [
      | inl both ↦ (resigns from m, simp (on, warm, both) refl, inl (on, inr both, refl, refl))
      | inr one ↦
          (reject from match_not_started m, simp (on, warm, one) refl, inr (inr (warm, one), refl))
    ]
  ]
]

abbrev pub enqueue_all : List (PieceColor × ClientMessage) → Match → Match
enqueue_all [] m = m
enqueue_all ((from, message) ∷ cs) m = enqueue_all cs (enqueue from message m).1

take_all : {A : Type 0} (n : ℕ) (xs : List A) → length xs ≤ n → take n xs ≡ xs
take_all zero [] h = refl
take_all zero (x ∷ xs) h = absurd (omega (arith, h))
take_all (suc n) [] h = refl
take_all (suc n) (x ∷ xs) h = ap (λ ys. x ∷ ys) (take_all n xs (omega (arith, h)))

take_full : {A : Type 0} (n : ℕ) (xs ys : List A) → n ≤ length xs → take n (xs ++ ys) ≡ take n xs
take_full zero xs ys h = refl
take_full (suc n) [] ys h = absurd (omega (arith, h))
take_full (suc n) (x ∷ xs) ys h = ap (λ zs. x ∷ zs) (take_full n xs ys (omega (arith, h)))

-- However many commands arrive before a tick, from a queue within its limit: the queue holds the
-- first 512 of all, in the order of arrival, and every other one is counted as dropped.
enqueue_all_lem :
    (cs : List (PieceColor × ClientMessage)) (m : Match)
    → length m.queue ≤ max_queued_commands
    → ((enqueue_all cs m).queue ≡ take max_queued_commands (m.queue ++ cs))
      × ((enqueue_all cs m).dropped_commands
          ≡ m.dropped_commands + ((length m.queue + length cs) - max_queued_commands))
unfolding enqueue
enqueue_all_lem [] m h =
    (rw (append-nil m.queue) (sym (take_all max_queued_commands m.queue h)), omega (arith, h))
enqueue_all_lem ((from, message) ∷ cs) m h =
    elim (Bool-cases (leb max_queued_commands (length m.queue))) [
      | inl full ↦
          let k : max_queued_commands ≤ length m.queue = leb→le _ _ full in
          let (q, d) =
            enqueue_all_lem cs (record m { dropped_commands = m.dropped_commands + 1 }) h in
          simp full (
            q
                ∙ take_full max_queued_commands m.queue cs k
                ∙ sym (take_full max_queued_commands m.queue ((from, message) ∷ cs) k),
            omega (arith, d, h, k),
          )
      | inr room ↦
          let n = length-append m.queue ((from, message) ∷ []) in
          let k : suc (length m.queue) ≤ max_queued_commands = ground arith in
          let (q, d) =
            enqueue_all_lem cs (record m { queue = m.queue ++ (from, message) ∷ [] })
              (omega (arith, n, k)) in
          simp room (
            q
                ∙ ap (λ xs. take max_queued_commands xs)
                    (append_assoc m.queue ((from, message) ∷ []) cs),
            omega (arith, d, n, k),
          )
    ]
