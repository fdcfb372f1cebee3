-- ===== src/Rules/Validation.antt =====
-- `validate_move` with the full registry: it never throws, and accepts exactly the legal moves.
use kung_fu_chess.Prelude.{
  ◌≡◌, refl, ◌↔◌, ◌⊎◌, inl, inr, true, false, not, ◌||◌, Bool-cases, Option-cases, none, some, List,
  [], ◌∷◌, ◌∈◌, Result, subst, ◌≢◌, Returns, arith,
}
use kung_fu_chess.Model.{Position, Piece, position_eq_iff}
use kung_fu_chess.Model.Board.{Board, in_bounds, piece_at, Inside, piece_at-Inside}
use kung_fu_chess.Rules.Geometry.{may_step}
use kung_fu_chess.Rules.Pieces.{legal_destinations, make_full_piece_rule_registry}
use kung_fu_chess.Rules.Engine.{
  MoveReason, MoveValidation, reason_ok, outside_board, empty_source, friendly_destination,
  illegal_piece_move, contains, friendly_at, validate_piece, validate_move, rejected,
}
use kung_fu_chess.Rules.Listed.{rule_of, rule_for-full_registry, legal_destinations-may_step}

contains_iff : (p : Position) (ps : List Position) → (contains p ps ≡ true) ↔ (p ∈ ps)
unfolding contains
contains_iff p [] = (λ e. cc, λ m. absurd m)
contains_iff p (q ∷ qs) = (
  ground (arith, (contains_iff p qs).0, (position_eq_iff q p).0),
  ground (arith, (contains_iff p qs).1, (position_eq_iff q p).1),
)

-- A piece stands on the source, and its own rule lists the destination.
abbrev pub IsLegal : Board → Position → Position → Type 0
IsLegal b source destination =
    (x : Piece) × (piece_at b source ≡ some x)
    × (destination ∈ legal_destinations (rule_of x.kind) b x)

abbrev validate : Board → Position → Position → Result MoveValidation
validate = validate_move make_full_piece_rule_registry

-- Both squares are on the board.
abbrev OnBoard : Board → Position → Position → Type 0
OnBoard b source destination = Inside b source × Inside b destination

-- When each reason for a refusal is the right one: at most one is, for any board and squares.
abbrev pub Refuses : Board → Position → Position → MoveReason → Type 0
Refuses b source destination outside_board = ¬ OnBoard b source destination
Refuses b source destination empty_source =
    OnBoard b source destination × (piece_at b source ≡ none)
Refuses b source destination friendly_destination =
    OnBoard b source destination
    × (x y : Piece) × (piece_at b source ≡ some x)
    × (piece_at b destination ≡ some y)
    × (y.color ≡ x.color)
Refuses b source destination illegal_piece_move =
    OnBoard b source destination
    × (x : Piece) × (piece_at b source ≡ some x)
    × ((y : Piece) → piece_at b destination ≡ some y → y.color ≢ x.color)
    × (¬ (destination ∈ legal_destinations (rule_of x.kind) b x))
Refuses b source destination _ = ⊥

-- What a verdict has to say about a move.
abbrev pub Judges : Board → Position → Position → MoveValidation → Type 0
Judges b source destination v =
    (v.is_valid ≡ true) × (v.reason ≡ reason_ok) × IsLegal b source destination
    ⊎ (v.is_valid ≡ false)
      × Refuses b source destination v.reason
      × (¬ IsLegal b source destination)

may_step-facts :
    (b : Board) (x : Piece) (p : Position)
    → may_step b x.color p ≡ true
    → Inside b p × (friendly_at b x p ≡ false)
unfolding may_step friendly_at
may_step-facts b x p e = (ground arith, ground arith)

rejected-Judges :
    (b : Board) (s d : Position) (why : MoveReason)
    → Refuses b s d why
    → ¬ IsLegal b s d
    → Judges b s d (rejected why)
rejected-Judges b s d why right illegal = inr (refl, right, illegal)

-- A friend stands on the destination.
friend_there :
    (b : Board) (x : Piece) (d : Position)
    → friendly_at b x d ≡ true
    → (y : Piece) × (piece_at b d ≡ some y) × (y.color ≡ x.color)
unfolding friendly_at
friend_there b x d e = elim (Option-cases (piece_at b d)) [
  | inl empty ↦ absurd (ground (arith, e, empty))
  | inr (y, there) ↦ (y, there, ground (arith, e, there))
]

no_friend_there :
    (b : Board) (x : Piece) (d : Position)
    → friendly_at b x d ≡ false
    → (y : Piece) → piece_at b d ≡ some y
    → y.color ≢ x.color
unfolding friendly_at
no_friend_there b x d e y there same = ground (arith, e, there, same)

module _ (b : Board) (s d : Position) (x : Piece) (at : piece_at b s ≡ some x)
    (on : OnBoard b s d) where
  legal_here : IsLegal b s d → d ∈ legal_destinations (rule_of x.kind) b x
  legal_here (y, e, m) = subst (λ z. d ∈ legal_destinations (rule_of z.kind) b z) (some_inj y e) m
    where
      some_inj : (y : Piece) → piece_at b s ≡ some y → y ≡ x
      some_inj y e = cc

  validate_piece-Judges :
      Returns (Judges b s d) (validate_piece make_full_piece_rule_registry b x d)
  unfolding validate_piece
  validate_piece-Judges = elim (Bool-cases (friendly_at b x d)) [
    | inl f ↦ (
      rejected friendly_destination,
      rw f,
      rejected-Judges b s d friendly_destination
          (let (y, there, same) = friend_there b x d f in (on, x, y, at, there, same))
          λ l.
            let free = legal_destinations-may_step (rule_of x.kind) b x d (legal_here l) in
            cc (f, (may_step-facts b x d free).1),
    )
    | inr f ↦ elim (Bool-cases (contains d (legal_destinations (rule_of x.kind) b x))) [
      | inl c ↦ (
        record { is_valid = true; reason = reason_ok },
        rw (f, rule_for-full_registry x.kind, c),
        inl (refl, refl, (x, at, (contains_iff d _).0 c)),
      )
      | inr c ↦ (
        rejected illegal_piece_move,
        rw (f, rule_for-full_registry x.kind, c),
        rejected-Judges b s d illegal_piece_move
            (on, x, at, no_friend_there b x d f, λ m. cc (c, (contains_iff d _).1 m))
            λ l. cc (c, (contains_iff d _).1 (legal_here l)),
      )
    ]
  ]

off_board-illegal :
    (b : Board) (s d : Position)
    → (not (in_bounds b s) || not (in_bounds b d)) ≡ true
    → ¬ IsLegal b s d
off_board-illegal b s d off (x, e, m) = ground (
  arith,
  piece_at-Inside b s e,
  (may_step-facts b x d (legal_destinations-may_step (rule_of x.kind) b x d m)).0,
)

-- For every board, source and destination `validate_move` with the full registry returns a verdict
-- and never throws: either a valid one with reason "ok", and a piece stands on the source whose own
-- rule lists the destination, or an invalid one, and there is no such piece. The reason of an invalid one
-- is "outside_board" only if one of the squares is off the board, "empty_source" only if both are on it
-- and no piece stands on the source, "friendly_destination" only if both are on the board and a piece of
-- the mover's colour stands on the destination, and "illegal_piece_move" only if both are on the board, a piece stands on the
-- source, no friend stands on the destination, and the rule does not list it; there is no other reason.
pub validate_move-Judges : (b : Board) (s d : Position) → Returns (Judges b s d) (validate b s d)
unfolding validate_move
validate_move-Judges b s d = elim (Bool-cases (not (in_bounds b s) || not (in_bounds b d))) [
  | inl off ↦ (
    rejected outside_board,
    rw off,
    rejected-Judges b s d outside_board (λ h. ground (arith, off, h)) (off_board-illegal b s d off),
  )
  | inr on ↦
      let both : OnBoard b s d = (ground arith, ground arith) in
      elim (Option-cases (piece_at b s)) [
        | inl e ↦ (
          rejected empty_source,
          rw (on, e),
          rejected-Judges b s d empty_source (both, e) λ l. cc (e, l.1),
        )
        | inr (x, e) ↦ let (v, r, j) = validate_piece-Judges b s d x e both in (v, rw (on, e) r, j)
      ]
]
