-- ===== src/Engine/Safety.antt =====
-- Every request and every step of time returns, and keeps the invariant of the arbiter.
use kung_fu_chess.Prelude.{
  ℕ, ◌≡◌, refl, sym, ◌∙◌, inl, inr, false, Bool-cases, Option, none, some, List, [], ◌∷◌, ◌++◌, All,
  All-append, ok, Returns, >>=-Returns, arith,
}
use kung_fu_chess.Model.{Position, Piece}
use kung_fu_chess.Model.Board.{
  Board, piece_at, Inside, Writes, piece_at-Inside, set_piece_state-Writes,
}
use kung_fu_chess.Rules.{MoveValidation}
use kung_fu_chess.Rules.Listed.{legal_destinations-may_step, rule_of}
use kung_fu_chess.Rules.Validation.{Judges, validate_move-Judges}
use kung_fu_chess.Rules.Walk.{may_step-Inside}
use kung_fu_chess.RealTime.{
  Motion, jump_in_place, MotionFactory, create_move, create_jump, RealTimeArbiter, start_motion,
  is_piece_busy, motion_for, find_motion, flying_state, ArrivalEvent,
}
use kung_fu_chess.RealTime.Safety.Invariant.{IsCoherent, IsAnchored, IsSafe, Fresh, Distinct}
use kung_fu_chess.RealTime.Safety.Upkeep.{restate-IsCoherent, restate-IsAnchored}
use kung_fu_chess.RealTime.Safety.Ticks.{advance_time-IsSafe}
use kung_fu_chess.Engine.Core.{
  GameCore, MoveResult, launch, start_move, request_move, jump_piece, request_jump, wait, Command,
  moves, jumps, waits, step, run, is_busy, make_game_core, any_king_captured, accepted,
}

abbrev pub IsSound : GameCore → Type 0
IsSound g = IsSafe g.board g.arbiter

-- A piece that is not busy has no motion.
find_motion-Fresh : (id : ℕ) (ms : List Motion) → find_motion id ms ≡ none → Fresh id ms
unfolding find_motion
find_motion-Fresh id [] e = tt
find_motion-Fresh id (m ∷ ms) e = (ground arith, find_motion-Fresh id ms (ground arith))

idle-Fresh : (a : RealTimeArbiter) (id : ℕ) → is_piece_busy a id ≡ false → Fresh id a.active_motions
unfolding is_piece_busy motion_for
idle-Fresh a id e = find_motion-Fresh id a.active_motions (ground arith)

Distinct-snoc :
    (ms : List Motion) (m : Motion)
    → Distinct ms
    → Fresh m.moving_piece.id ms
    → Distinct (ms ++ m ∷ [])
Distinct-snoc [] m d f = (tt, tt)
Distinct-snoc (n ∷ ms) m d f =
    (All-append _ ms (m ∷ []) d.0 ((λ e. f.0 (sym e)), tt), Distinct-snoc ms m d.1 f.1)

-- Starting a motion of a piece that is on the board and not busy.
module _ (m : Motion) (g : GameCore) (safe : IsSound g)
    (at : piece_at g.board m.source ≡ some m.moving_piece)
    (rested : Fresh m.moving_piece.id g.arbiter.active_motions)
    (inside : Inside g.board m.destination)
    (in_place : m.kind ≡ jump_in_place → m.destination ≡ m.source) where
  open g use {board as b, arbiter as a}

  restated_others :
      (c : Board) (ms : List Motion)
      → Writes b m.source (some (record m.moving_piece { state = flying_state m.kind })) c
      → Fresh m.moving_piece.id ms
      → All (IsAnchored b) ms
      → All (IsAnchored c) ms
  restated_others c [] w f h = tt
  restated_others c (n ∷ ms) w f h = (
    restate-IsAnchored b c m.source m.moving_piece (flying_state m.kind) at w n
        (inl (λ e. f.0 (sym e))) h.0,
    restated_others c ms w f.1 h.1,
  )

  new_motion :
      (c : Board)
      → Writes b m.source (some (record m.moving_piece { state = flying_state m.kind })) c
      → IsCoherent c
      → IsAnchored c m
  new_motion c w v = record {
    source_inside = w.bounds m.source ∙ piece_at-Inside b m.source at;
    destination_inside = w.bounds m.destination ∙ inside;
    in_place = in_place;
    nowhere_else = λ q x e i. v.unique q m.source x _ e here i;
    present = λ k. (record m.moving_piece { state = flying_state m.kind }, here, refl, rw k);
  }
    where
      here : piece_at c m.source ≡ some (record m.moving_piece { state = flying_state m.kind })
      here = w.square m.source ∙ ground arith

  launch-IsSound : Returns (λ (r : MoveResult × GameCore). IsSound r.1) (launch m g)
  unfolding launch start_motion
  launch-IsSound =
      let (c, r, w) =
        set_piece_state-Writes b m.source safe.board.valid (piece_at-Inside b m.source at)
          (flying_state m.kind) m.moving_piece at in
      let v =
        restate-IsCoherent b c m.source m.moving_piece (flying_state m.kind) at w safe.board in
      (
        (
          accepted,
          record g {
            board = c;
            arbiter = record a { active_motions = a.active_motions ++ m ∷ [] };
          },
        ),
        rw r,
        record {
          board = v;
          motions =
              All-append _ a.active_motions (m ∷ [])
                (restated_others c a.active_motions w rested safe.motions) (new_motion c w v, tt);
          distinct = Distinct-snoc a.active_motions m safe.distinct rested;
        },
      )

abbrev pub SoundResult : {A : Type 0} → A × GameCore → Type 0
SoundResult r = IsSound r.1

module _ (f : MotionFactory) (g : GameCore) (safe : IsSound g) where
  -- A refusal leaves the game as it was.
  refuse-Returns : (r : MoveResult) → Returns (SoundResult {A = MoveResult}) (ok (r, g))
  refuse-Returns r = ((r, g), refl, safe)

  start_move-IsSound :
      (s d : Position) (v : MoveValidation)
      → is_busy g (piece_at g.board s) ≡ false
      → Judges g.board s d v
      → Returns (SoundResult {A = MoveResult}) (start_move f g s d v)
  unfolding start_move create_move
  start_move-IsSound s d v rested (inr (e, _, _)) =
      rw e (refuse-Returns (record { is_accepted = false; reason = v.reason }))
  start_move-IsSound s d v rested (inl (e, _, (x, at, m))) =
      let free = legal_destinations-may_step (rule_of x.kind) g.board x d m in
      rw (e, at)
        (launch-IsSound (create_move f x s d) g safe at
          (idle-Fresh g.arbiter x.id (rw at at rested)) (may_step-Inside g.board x.color d free)
          (λ k. cc))

  -- A request to move, whatever its squares, returns, and the game stays sound.
  pub request_move-IsSound :
      (s d : Position) → Returns (SoundResult {A = MoveResult}) (request_move f g s d)
  unfolding request_move
  request_move-IsSound s d = elim (Bool-cases g.is_game_over) [
    | inl e ↦ simp e (refuse-Returns _)
    | inr e ↦ elim (Bool-cases (is_busy g (piece_at g.board s))) [
      | inl busy ↦ simp (e, busy) (refuse-Returns _)
      | inr rested ↦
          simp (e, rested)
            (>>=-Returns _ (start_move f g s d) (validate_move-Judges g.board s d)
              (λ v j. start_move-IsSound s d v rested j))
    ]
  ]

  jump_piece-IsSound :
      (cell : Position) (o : Option Piece)
      → piece_at g.board cell ≡ o
      → Returns (SoundResult {A = MoveResult}) (jump_piece f g cell o)
  unfolding jump_piece create_jump
  jump_piece-IsSound cell none e = refuse-Returns _
  jump_piece-IsSound cell (some x) at = elim (Bool-cases (is_piece_busy g.arbiter x.id)) [
    | inl busy ↦ rw busy (refuse-Returns _)
    | inr rested ↦ rw rested (
        launch-IsSound (create_jump f x cell) g safe at (idle-Fresh g.arbiter x.id rested)
          (piece_at-Inside g.board cell at) (λ k. refl))
  ]

  pub request_jump-IsSound :
      (cell : Position) → Returns (SoundResult {A = MoveResult}) (request_jump f g cell)
  unfolding request_jump
  request_jump-IsSound cell = elim (Bool-cases g.is_game_over) [
    | inl e ↦ simp e (refuse-Returns _)
    | inr e ↦ simp e (jump_piece-IsSound cell (piece_at g.board cell) refl)
  ]

  pub wait-IsSound : (ms : ℕ) → Returns (SoundResult {A = List ArrivalEvent}) (wait ms g)
  unfolding wait
  wait-IsSound ms = elim (Bool-cases g.is_game_over) [
    | inl e ↦ (([], g), rw e, safe)
    | inr e ↦
        let ((events, b, a), r, s) = advance_time-IsSafe ms g.board g.arbiter safe in
        (
          (events, record { board = b; arbiter = a; is_game_over = any_king_captured events }),
          rw (e, r),
          s,
        )
  ]

module _ (f : MotionFactory) where
  step-IsSound : (c : Command) (g : GameCore) → IsSound g → Returns IsSound (step f c g)
  unfolding step
  step-IsSound (moves s d) g safe =
      >>=-Returns _ _ (request_move-IsSound f g safe s d) (λ r h. (r.1, refl, h))
  step-IsSound (jumps cell) g safe =
      >>=-Returns _ _ (request_jump-IsSound f g safe cell) (λ r h. (r.1, refl, h))
  step-IsSound (waits ms) g safe =
      >>=-Returns _ _ (wait-IsSound f g safe ms) (λ r h. (r.1, refl, h))

  run-from : (cs : List Command) (g : GameCore) → IsSound g → Returns IsSound (run f cs g)
  unfolding run
  run-from [] g safe = (g, refl, safe)
  run-from (c ∷ cs) g safe =
      >>=-Returns (step f c g) (run f cs) (step-IsSound c g safe) (run-from cs)

  pub make_game_core-IsSound : (b : Board) → IsCoherent b → IsSound (make_game_core b)
  unfolding make_game_core
  make_game_core-IsSound b v = record { board = v; motions = tt; distinct = tt }

  -- Over any coherent board, and with any factory, every sequence of moves, jumps and waits runs to
  -- its end without an exception or an empty optional being read, and leaves a coherent board with
  -- every motion in flight anchored to it.
  pub run-IsSound :
      (b : Board) (cs : List Command) → IsCoherent b → Returns IsSound (run f cs (make_game_core b))
  run-IsSound b cs v = run-from cs (make_game_core b) (make_game_core-IsSound b v)
