-- ===== src/Engine/Requests.antt =====
-- Which requests are accepted, and what they change.
use kung_fu_chess.Prelude.{
  ◌≡◌, refl, ◌⊎◌, inl, inr, true, false, Bool-cases, Option, none, some, [], ◌∷◌, ◌++◌, Returns,
  >>=-Returns, ap,
}
use kung_fu_chess.Model.{Position, Piece}
use kung_fu_chess.Model.Board.{piece_at, IsValid, Writes, piece_at-Inside, set_piece_state-Writes}
use kung_fu_chess.Rules.{MoveValidation, game_over, motion_in_progress, empty_source}
use kung_fu_chess.Rules.Validation.{Judges, IsLegal, validate_move-Judges}
use kung_fu_chess.RealTime.{
  Motion, MotionFactory, create_move, create_jump, start_motion, flying_state, is_piece_busy,
}
use kung_fu_chess.Engine.Core.{
  GameCore, MoveResult, launch, start_move, request_move, jump_piece, request_jump, is_busy, refuse,
  accepted,
}

-- `g` with the motion `m` started: listed last, and its piece marked as flying.
pub record Starts (g : GameCore) (m : Motion) (g' : GameCore) : Type 0 where
  pub listed : g'.arbiter.active_motions ≡ g.arbiter.active_motions ++ m ∷ []
  pub flies :
      Writes g.board m.source
        (some (record m.moving_piece { state = flying_state m.kind }))
        g'.board
  pub same_cooldowns : g'.arbiter.cooldowns_remaining_ms ≡ g.arbiter.cooldowns_remaining_ms
  pub same_clock : g'.arbiter.clock_ms ≡ g.arbiter.clock_ms
  pub same_ending : g'.is_game_over ≡ g.is_game_over

launch-Starts :
    (m : Motion) (g : GameCore)
    → IsValid g.board
    → piece_at g.board m.source ≡ some m.moving_piece
    → Returns (λ (r : MoveResult × GameCore). (r.0 ≡ accepted) × Starts g m r.1) (launch m g)
unfolding launch start_motion
launch-Starts m g valid at =
    let (c, r, w) =
      set_piece_state-Writes g.board m.source valid (piece_at-Inside g.board m.source at)
        (flying_state m.kind) m.moving_piece at in
    (
      (
        accepted,
        record g {
          board = c;
          arbiter = record g.arbiter { active_motions = g.arbiter.active_motions ++ m ∷ [] };
        },
      ),
      rw r,
      (
        refl,
        record {
          listed = refl;
          flies = w;
          same_cooldowns = refl;
          same_clock = refl;
          same_ending = refl;
        },
      ),
    )

-- What an answer to a request has to say: `Allowed` is when it may be accepted, `made` the motion.
abbrev pub Answers :
    GameCore → Position → Type 0 → (Piece → Motion) → MoveResult × GameCore → Type 0
Answers g source Allowed made r =
    (r.0.is_accepted ≡ false) × (¬ Allowed) × (r.1 ≡ g)
    ⊎ (r.0.is_accepted ≡ true)
      × Allowed
      × ((x : Piece) × (piece_at g.board source ≡ some x) × Starts g (made x) r.1)

starts :
    (g : GameCore) (s : Position) (Allowed : Type 0) (made : Piece → Motion) (x : Piece)
    (r : MoveResult × GameCore)
    → piece_at g.board s ≡ some x
    → Allowed
    → (r.0 ≡ accepted) × Starts g (made x) r.1
    → Answers g s Allowed made r
starts g s Allowed made x r at h (e, t) = inr (rw e, h, (x, at, t))

abbrev pub MayMove : GameCore → Position → Position → Type 0
MayMove g s d =
    (g.is_game_over ≡ false) × (is_busy g (piece_at g.board s) ≡ false) × IsLegal g.board s d

abbrev pub MayJump : GameCore → Position → Type 0
MayJump g cell =
    (g.is_game_over ≡ false)
    × (x : Piece) × (piece_at g.board cell ≡ some x)
    × (is_piece_busy g.arbiter x.id ≡ false)

module _ (f : MotionFactory) (g : GameCore) (valid : IsValid g.board) where
  abbrev AnswersMove : Position → Position → MoveResult × GameCore → Type 0
  AnswersMove s d = Answers g s (MayMove g s d) (λ x. create_move f x s d)

  start_move-Answers :
      (s d : Position) (v : MoveValidation)
      → g.is_game_over ≡ false
      → is_busy g (piece_at g.board s) ≡ false
      → Judges g.board s d v
      → Returns (AnswersMove s d) (start_move f g s d v)
  unfolding start_move create_move
  start_move-Answers s d v over rested (inr (e, _, illegal)) =
      (refuse v.reason g, simp e, inl (refl, (λ h. illegal h.2), refl))
  start_move-Answers s d v over rested (inl (e, _, (x, at, m))) =
      let (r, ran, t) = launch-Starts (create_move f x s d) g valid at in
      (r, rw (e, at) ran, starts g s _ _ x r at (over, rested, (x, at, m)) t)

  -- On a valid board a request to move is accepted exactly when the game is on, the piece on the
  -- source is neither flying nor resting, and the move is legal. A refusal changes nothing; an
  -- acceptance lists the motion that the factory makes of that piece, marks the piece as moving on
  -- its square, and changes nothing else of the game.
  pub request_move-Answers :
      (s d : Position)
      → Returns (Answers g s (MayMove g s d) (λ x. create_move f x s d)) (request_move f g s d)
  unfolding request_move
  request_move-Answers s d = elim (Bool-cases g.is_game_over) [
    | inl e ↦ (refuse game_over g, simp e, inl (refl, (λ h. cc (e, h.0)), refl))
    | inr e ↦ elim (Bool-cases (is_busy g (piece_at g.board s))) [
      | inl busy ↦
          (refuse motion_in_progress g, simp (e, busy), inl (refl, (λ h. cc (busy, h.1)), refl))
      | inr rested ↦
          let (r, ran, t) =
            >>=-Returns {Q = AnswersMove s d} _ (start_move f g s d)
              (validate_move-Judges g.board s d) (λ v j. start_move-Answers s d v e rested j) in
          (r, simp (e, rested) ran, t)
    ]
  ]

  abbrev AnswersJump : Position → MoveResult × GameCore → Type 0
  AnswersJump cell = Answers g cell (MayJump g cell) (λ x. create_jump f x cell)

  jump_piece-Answers :
      (cell : Position) (o : Option Piece)
      → g.is_game_over ≡ false
      → piece_at g.board cell ≡ o
      → Returns (AnswersJump cell) (jump_piece f g cell o)
  unfolding jump_piece create_jump
  jump_piece-Answers cell none over at =
      (refuse empty_source g, refl, inl (refl, (λ h. cc (at, h.2)), refl))
  jump_piece-Answers cell (some x) over at = elim (Bool-cases (is_piece_busy g.arbiter x.id)) [
    | inl busy ↦ (
      refuse motion_in_progress g,
      rw busy,
      inl (refl, (λ h. still_busy x h.1 busy (cc (at, h.2)) h.3), refl),
    )
    | inr rested ↦
        let (r, ran, t) = launch-Starts (create_jump f x cell) g valid at in
        (r, rw rested ran, starts g cell _ _ x r at (over, x, at, rested) t)
  ]
    where
      still_busy :
          (x y : Piece)
          → is_piece_busy g.arbiter x.id ≡ true
          → x ≡ y
          → ¬ (is_piece_busy g.arbiter y.id ≡ false)
      still_busy x y busy e idle_now =
          cc (busy, idle_now, ap (λ (z : Piece). is_piece_busy g.arbiter z.id) e)

  -- On a valid board a request to jump is accepted exactly when the game is on and a piece stands
  -- on the square that is neither flying nor resting; no rule of movement is asked. A refusal changes
  -- nothing; an acceptance lists the jump that the factory makes of that piece, marks the piece as
  -- airborne on its square, and changes nothing else of the game.
  pub request_jump-Answers :
      (cell : Position)
      → Returns
          (Answers g cell (MayJump g cell) (λ x. create_jump f x cell))
          (request_jump f g cell)
  unfolding request_jump
  request_jump-Answers cell = elim (Bool-cases g.is_game_over) [
    | inl e ↦ (refuse game_over g, simp e, inl (refl, (λ h. cc (e, h.0)), refl))
    | inr e ↦
        let (r, ran, t) = jump_piece-Answers cell (piece_at g.board cell) e refl in
        (r, simp e ran, t)
  ]
