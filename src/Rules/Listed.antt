-- ===== src/Rules/Listed.antt =====
-- What the rules of the full registry list: squares on the board without a friend.
use kung_fu_chess.Prelude.{◌≡◌, refl, true, ◌∈◌, ok, arith}
use kung_fu_chess.Model.{
  Position, Piece, PieceColor, PieceKind, king, queen, rook, bishop, knight, pawn, drone,
}
use kung_fu_chess.Model.Board.{Board}
use kung_fu_chess.Rules.Geometry.{may_step}
use kung_fu_chess.Rules.Pieces.{
  MovementRule, king_rule, queen_rule, rook_rule, bishop_rule, knight_rule, pawn_rule, drone_rule,
  legal_destinations, rule_for, make_full_piece_rule_registry, queen_directions, rook_directions,
  bishop_directions, king_offsets, knight_offsets, drone_offsets, is_clear, holds_enemy,
}
use kung_fu_chess.Rules.Destinations.{mem-sliding_destinations, mem-stepping_destinations}
use kung_fu_chess.Rules.PawnMoves.{PawnMove, single, double, capture, pawn_destinations}

-- The rule that the registry is meant to give each kind.
abbrev pub rule_of : PieceKind → MovementRule
rule_of king = king_rule
rule_of queen = queen_rule
rule_of rook = rook_rule
rule_of bishop = bishop_rule
rule_of knight = knight_rule
rule_of pawn = pawn_rule
rule_of drone = drone_rule

-- The full registry has every kind's own rule, so a lookup never throws.
pub rule_for-full_registry :
    (k : PieceKind) → rule_for k make_full_piece_rule_registry ≡ ok (rule_of k)
unfolding rule_for make_full_piece_rule_registry
rule_for-full_registry king = refl
rule_for-full_registry queen = refl
rule_for-full_registry rook = refl
rule_for-full_registry bishop = refl
rule_for-full_registry knight = refl
rule_for-full_registry pawn = refl
rule_for-full_registry drone = refl

clear-may_step :
    (b : Board) (color : PieceColor) (p : Position)
    → is_clear b p ≡ true
    → may_step b color p ≡ true
unfolding is_clear may_step
clear-may_step b color p e = ground arith

enemy-may_step :
    (b : Board) (color : PieceColor) (p : Position)
    → holds_enemy b color p ≡ true
    → may_step b color p ≡ true
unfolding holds_enemy may_step
enemy-may_step b color p e = ground arith

PawnMove-may_step :
    (b : Board) (piece : Piece) (p : Position)
    → PawnMove b piece p
    → may_step b piece.color p ≡ true
PawnMove-may_step b piece p (single e c) = clear-may_step b piece.color p c
PawnMove-may_step b piece p (double e first c c') = clear-may_step b piece.color p c'
PawnMove-may_step b piece p (capture side s e h) = enemy-may_step b piece.color p h

-- Whatever the rule, board and piece, a listed destination is on the board and holds no piece of
-- the mover's own colour.
pub legal_destinations-may_step :
    (r : MovementRule) (b : Board) (piece : Piece) (p : Position)
    → p ∈ legal_destinations r b piece
    → may_step b piece.color p ≡ true
unfolding legal_destinations
legal_destinations-may_step king_rule b piece p m =
    ((mem-stepping_destinations b piece p king_offsets).0 m).3
legal_destinations-may_step queen_rule b piece p m =
    ((mem-sliding_destinations b piece p queen_directions (omega arith)).0 m).2.free
legal_destinations-may_step rook_rule b piece p m =
    ((mem-sliding_destinations b piece p rook_directions (omega arith)).0 m).2.free
legal_destinations-may_step bishop_rule b piece p m =
    ((mem-sliding_destinations b piece p bishop_directions (omega arith)).0 m).2.free
legal_destinations-may_step knight_rule b piece p m =
    ((mem-stepping_destinations b piece p knight_offsets).0 m).3
legal_destinations-may_step pawn_rule b piece p m =
    PawnMove-may_step b piece p ((pawn_destinations b piece p).0 m)
legal_destinations-may_step drone_rule b piece p m =
    ((mem-stepping_destinations b piece p drone_offsets).0 m).3
