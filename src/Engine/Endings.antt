-- ===== src/Engine/Endings.antt =====
-- How a game ends, and that nothing happens after.
use kung_fu_chess.Prelude.{
  ℕ, ◌≡◌, ◌||◌, refl, ◌↔◌, inl, inr, true, false, Bool-cases, Option, none, some, List, [], ◌∷◌,
  ◌∈◌, ok, arith,
}
use kung_fu_chess.Model.{Position, Piece, king, is_king}
use kung_fu_chess.RealTime.{MotionFactory, ArrivalEvent, captured_a_king}
use kung_fu_chess.Engine.Core.{
  GameCore, MoveResult, launch, start_move, jump_piece, request_move, request_jump, wait, Command,
  moves, jumps, waits, run, any_king_captured,
}

-- Once a game is over, no sequence of moves, jumps and waits throws or changes anything of it.
run-game_over :
    (f : MotionFactory) (cs : List Command) (g : GameCore)
    → g.is_game_over ≡ true
    → run f cs g ≡ ok g
unfolding run request_move request_jump wait
run-game_over f [] g e = refl
run-game_over f (moves s d ∷ cs) g e = simp e (run-game_over f cs g e)
run-game_over f (jumps cell ∷ cs) g e = simp e (run-game_over f cs g e)
run-game_over f (waits ms ∷ cs) g e = simp e (run-game_over f cs g e)

-- The event says that a king was taken.
abbrev pub TakesKing : ArrivalEvent → Type 0
TakesKing e = (p : Piece) × (e.captured_piece ≡ some p) × (p.kind ≡ king)

captured_a_king_iff : (e : ArrivalEvent) → (captured_a_king e ≡ true) ↔ TakesKing e
unfolding captured_a_king
captured_a_king_iff e = (takes e e.captured_piece, ground arith)
  where
    takes :
        (e : ArrivalEvent) (o : Option Piece)
        → (elim o [ none ↦ false | some p ↦ is_king p.kind ]) ≡ true
        → (p : Piece) × (o ≡ some p) × (p.kind ≡ king)
    takes e none h = cc
    takes e (some p) h = (p, refl, ground arith)

king_among :
    (es : List ArrivalEvent) (e : ArrivalEvent)
    → e ∈ es
    → captured_a_king e ≡ true
    → any_king_captured es ≡ true
unfolding any_king_captured
king_among [] e m k = absurd m
king_among (d ∷ es) e (inl same) k = rw (← same, k)
king_among (d ∷ es) e (inr m) k = ground (arith, king_among es e m k)

abbrev pub KingAmong : List ArrivalEvent → Type 0
KingAmong es = (e : ArrivalEvent) × (e ∈ es) × TakesKing e

pub any_king_captured_iff : (es : List ArrivalEvent) → (any_king_captured es ≡ true) ↔ KingAmong es
unfolding any_king_captured
any_king_captured_iff [] = (λ h. cc, λ h. absurd h.1)
any_king_captured_iff (e ∷ es) = (
  λ h. elim (Bool-cases (captured_a_king e)) [
    | inl k ↦ (e, inl refl, (captured_a_king_iff e).0 k)
    | inr k ↦ let (d, at, t) = (any_king_captured_iff es).0 (rw k at h) in (d, inr at, t)
  ],
  λ h. king_among (e ∷ es) h.0 h.1 ((captured_a_king_iff h.0).1 h.2),
)

wait-flag :
    (ms : ℕ) (g g' : GameCore) (es : List ArrivalEvent)
    → g.is_game_over ≡ false
    → wait ms g ≡ ok (es, g')
    → g'.is_game_over ≡ any_king_captured es
unfolding wait
wait-flag ms g g' es e h = ground arith

-- A wait adds the kings that it reports, and reports nothing of a game that is over.
pub wait-arrivals :
    (ms : ℕ) (g g' : GameCore) (es : List ArrivalEvent)
    → wait ms g ≡ ok (es, g')
    → (g'.is_game_over ≡ g.is_game_over || any_king_captured es) × (g.is_game_over ≡ true → es ≡ [])
unfolding wait any_king_captured
wait-arrivals ms g g' es h = (ground arith, λ e. ground arith)

-- A step of time that returns while the game is on ends it exactly when one of the arrivals that
-- it reports captured a king.
wait_ends_iff :
    (ms : ℕ) (g g' : GameCore) (es : List ArrivalEvent)
    → g.is_game_over ≡ false
    → wait ms g ≡ ok (es, g')
    → (g'.is_game_over ≡ true) ↔ KingAmong es
wait_ends_iff ms g g' es e h = rw (wait-flag ms g g' es e h) (any_king_captured_iff es)

-- A request to move leaves the end of the game where it was.
pub request_move-ending :
    (f : MotionFactory) (g g' : GameCore) (s d : Position) (r : MoveResult)
    → request_move f g s d ≡ ok (r, g')
    → g'.is_game_over ≡ g.is_game_over
unfolding request_move start_move launch
request_move-ending f g g' s d r e = ground arith

-- So does a request to jump.
pub request_jump-ending :
    (f : MotionFactory) (g g' : GameCore) (cell : Position) (r : MoveResult)
    → request_jump f g cell ≡ ok (r, g')
    → g'.is_game_over ≡ g.is_game_over
unfolding request_jump jump_piece launch
request_jump-ending f g g' cell r e = ground arith
