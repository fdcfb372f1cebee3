-- ===== src/Model/Pieces.antt =====
-- logic/include/kfc/model/position.hpp and piece.hpp. An `int` is an unbounded integer here; a
-- piece's id is only made by counting up and only compared, so it is a number.
use kung_fu_chess.Prelude.{ℕ, ◌≡◌, ◌↔◌, Bool, true, false, ◌&&◌, arith, ℤ, ◌==ℤ◌}

pub record Position : Type 0 where
  pub row : ℤ
  pub col : ℤ

-- operator==.
abbrev pub position_eq : Position → Position → Bool
position_eq lhs rhs = (lhs.row ==ℤ rhs.row) && (lhs.col ==ℤ rhs.col)

pub position_eq_iff : (p q : Position) → (position_eq p q ≡ true) ↔ (p ≡ q)
position_eq_iff p q = ground arith

pub data PieceColor : Type 0 where
  white black : PieceColor

pub data PieceKind : Type 0 where
  king queen rook bishop knight pawn drone : PieceKind

pub data PieceState : Type 0 where
  idle moving airborne captured : PieceState

abbrev pub opposite_of : PieceColor → PieceColor
opposite_of white = black
opposite_of black = white

-- `==` on the enums.
abbrev pub color_eq : PieceColor → PieceColor → Bool
color_eq white white = true
color_eq black black = true
color_eq _ _ = false

abbrev pub is_king : PieceKind → Bool
is_king king = true
is_king _ = false

abbrev pub is_pawn : PieceKind → Bool
is_pawn pawn = true
is_pawn _ = false

abbrev pub is_airborne : PieceState → Bool
is_airborne airborne = true
is_airborne _ = false

pub record Piece : Type 0 where
  pub id : ℕ
  pub color : PieceColor
  pub kind : PieceKind
  pub cell : Position
  pub state : PieceState
  pub has_moved : Bool

pub color_eq_iff : (c d : PieceColor) → (color_eq c d ≡ true) ↔ (c ≡ d)
color_eq_iff c d = ground arith
