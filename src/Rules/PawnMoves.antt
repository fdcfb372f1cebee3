-- ===== src/Rules/PawnMoves.antt =====
-- pawn_rule.cpp against the three ways in which a pawn moves.
use kung_fu_chess.Prelude.{
  ◌≡◌, refl, ◌↔◌, ◌⊎◌, inl, inr, true, false, ℤ, pos, negsuc, ◌*ℤ◌, [], ◌∷◌, ◌∈◌, ∈-append,
  ∈-append_left, ∈-append_right, arith,
}
use kung_fu_chess.Model.{Position, Piece}
use kung_fu_chess.Model.Board.{Board}
use kung_fu_chess.Rules.Geometry.{shift}
use kung_fu_chess.Rules.Pieces.{
  is_clear, holds_enemy, forward_step, forward_moves, diagonal_captures, pawn_rule,
  legal_destinations,
}

-- One step on, two steps on at a pawn's first move, or one step aslant onto an enemy.
pub data PawnMove (b : Board) (piece : Piece) (p : Position) : Type 0 where
  single :
      p ≡ shift piece.cell (forward_step piece.color, pos 0)
      → is_clear b p ≡ true
      → PawnMove b piece p
  double :
      p ≡ shift piece.cell (pos 2 *ℤ forward_step piece.color, pos 0)
      → piece.has_moved ≡ false
      → is_clear b (shift piece.cell (forward_step piece.color, pos 0)) ≡ true
      → is_clear b p ≡ true
      → PawnMove b piece p
  capture :
      (side : ℤ)
      → (side ≡ negsuc 0) ⊎ (side ≡ pos 1)
      → p ≡ shift piece.cell (forward_step piece.color, side)
      → holds_enemy b piece.color p ≡ true
      → PawnMove b piece p

module _ (b : Board) (piece : Piece) (p : Position) where
  abbrev forward : Position
  forward = shift piece.cell (forward_step piece.color, pos 0)

  abbrev double_forward : Position
  double_forward = shift piece.cell (pos 2 *ℤ forward_step piece.color, pos 0)

  mem-forward_moves : (p ∈ forward_moves b piece) ↔ (
      (p ≡ forward) × (is_clear b forward ≡ true)
      ⊎ (p ≡ double_forward)
        × (piece.has_moved ≡ false)
        × (is_clear b forward ≡ true)
        × (is_clear b double_forward ≡ true))
  unfolding forward_moves
  mem-forward_moves = (ground arith, ground arith)

  mem-diagonal_captures : (p ∈ diagonal_captures b piece (negsuc 0 ∷ pos 1 ∷ [])) ↔ (
      (p ≡ shift piece.cell (forward_step piece.color, negsuc 0))
        × (holds_enemy b piece.color (shift piece.cell (forward_step piece.color, negsuc 0)) ≡ true)
      ⊎ (p ≡ shift piece.cell (forward_step piece.color, pos 1))
        × (holds_enemy b piece.color (shift piece.cell (forward_step piece.color, pos 1)) ≡ true))
  unfolding diagonal_captures
  mem-diagonal_captures = (ground arith, ground arith)

  to_PawnMove : p ∈ legal_destinations pawn_rule b piece → PawnMove b piece p
  unfolding legal_destinations
  to_PawnMove m =
      elim (∈-append p (forward_moves b piece) (diagonal_captures b piece (negsuc 0 ∷ pos 1 ∷ []))
        m) [
          | inl l ↦ elim (mem-forward_moves.0 l) [
            | inl (e, c) ↦ single e (rw e c)
            | inr (e, first, c, c') ↦ double e first c (rw e c')
          ]
          | inr r ↦ elim (mem-diagonal_captures.0 r) [
            | inl (e, h) ↦ capture (negsuc 0) (inl refl) e (rw e h)
            | inr (e, h) ↦ capture (pos 1) (inr refl) e (rw e h)
          ]
        ]

  from_PawnMove : PawnMove b piece p → p ∈ legal_destinations pawn_rule b piece
  unfolding legal_destinations
  from_PawnMove (single e c) = ∈-append_left p _ _ (mem-forward_moves.1 (inl (e, rw (← e) c)))
  from_PawnMove (double e first c c') =
      ∈-append_left p _ _ (mem-forward_moves.1 (inr (e, first, c, rw (← e) c')))
  from_PawnMove (capture side (inl s) e h) =
      ∈-append_right p (forward_moves b piece) _
        (mem-diagonal_captures.1 (inl (rw (← s) e, rw (← s, ← e) h)))
  from_PawnMove (capture side (inr s) e h) =
      ∈-append_right p (forward_moves b piece) _
        (mem-diagonal_captures.1 (inr (rw (← s) e, rw (← s, ← e) h)))

  -- The squares that the pawn rule lists are exactly those of a pawn's move.
  pub pawn_destinations : (p ∈ legal_destinations pawn_rule b piece) ↔ PawnMove b piece p
  pawn_destinations = (to_PawnMove, from_PawnMove)
