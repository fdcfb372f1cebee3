-- ===== src/Rules/Pieces.antt =====
-- logic/src/kfc/rules: one rule for each kind, and the registry that holds them all.
use kung_fu_chess.Prelude.{
  Bool, true, false, not, ◌&&◌, if◌then◌else◌, ℤ, pos, negsuc, ◌*ℤ◌, none, some, List, [], ◌∷◌,
  ◌++◌, Result, ok, err, out_of_range,
}
use kung_fu_chess.Model.{
  Position, Piece, PieceColor, PieceKind, white, black, king, queen, rook, bishop, knight, pawn,
  drone, color_eq,
}
use kung_fu_chess.Model.Board.{Board, in_bounds, piece_at}
use kung_fu_chess.Rules.Geometry.{Offset, shift, sliding_destinations, stepping_destinations}

abbrev minus_one : ℤ
minus_one = negsuc 0

abbrev minus_two : ℤ
minus_two = negsuc 1

abbrev pub rook_directions : List Offset
rook_directions = (minus_one, pos 0) ∷ (pos 1, pos 0) ∷ (pos 0, minus_one) ∷ (pos 0, pos 1) ∷ []

abbrev pub bishop_directions : List Offset
bishop_directions =
    (minus_one, minus_one) ∷ (minus_one, pos 1) ∷ (pos 1, minus_one) ∷ (pos 1, pos 1) ∷ []

abbrev pub queen_directions : List Offset
queen_directions =
    (minus_one, pos 0)
    ∷ (pos 1, pos 0)
    ∷ (pos 0, minus_one)
    ∷ (pos 0, pos 1)
    ∷ (minus_one, minus_one)
    ∷ (minus_one, pos 1)
    ∷ (pos 1, minus_one)
    ∷ (pos 1, pos 1)
    ∷ []

abbrev pub knight_offsets : List Offset
knight_offsets =
    (minus_two, minus_one)
    ∷ (minus_two, pos 1)
    ∷ (minus_one, minus_two)
    ∷ (minus_one, pos 2)
    ∷ (pos 1, minus_two)
    ∷ (pos 1, pos 2)
    ∷ (pos 2, minus_one)
    ∷ (pos 2, pos 1)
    ∷ []

abbrev pub king_offsets : List Offset
king_offsets =
    (minus_one, minus_one)
    ∷ (minus_one, pos 0)
    ∷ (minus_one, pos 1)
    ∷ (pos 0, minus_one)
    ∷ (pos 0, pos 1)
    ∷ (pos 1, minus_one)
    ∷ (pos 1, pos 0)
    ∷ (pos 1, pos 1)
    ∷ []

abbrev pub drone_offsets : List Offset
drone_offsets =
    (minus_two, pos 0)
    ∷ (minus_one, pos 0)
    ∷ (pos 1, pos 0)
    ∷ (pos 2, pos 0)
    ∷ (pos 0, minus_two)
    ∷ (pos 0, minus_one)
    ∷ (pos 0, pos 1)
    ∷ (pos 0, pos 2)
    ∷ []

abbrev pub forward_step : PieceColor → ℤ
forward_step white = minus_one
forward_step black = pos 1

-- board.in_bounds(p) && !board.piece_at(p).has_value().
unfoldable pub is_clear : Board → Position → Bool
is_clear b p = in_bounds b p && (elim (piece_at b p) [ none ↦ true | some _ ↦ false ])

unfoldable pub holds_enemy : Board → PieceColor → Position → Bool
holds_enemy b color p =
    in_bounds b p
    && (elim (piece_at b p) [ none ↦ false | some occupant ↦ not (color_eq occupant.color color) ])

unfoldable pub forward_moves : Board → Piece → List Position
unfolding is_clear
forward_moves b piece =
    let forward = shift piece.cell (forward_step piece.color, pos 0) in
    let double_forward = shift piece.cell (pos 2 *ℤ forward_step piece.color, pos 0) in
    if is_clear b forward
    then forward
      ∷ (if not piece.has_moved && is_clear b double_forward then double_forward ∷ [] else [])
    else []

unfoldable pub diagonal_captures : Board → Piece → List ℤ → List Position
unfolding holds_enemy
diagonal_captures b piece [] = []
diagonal_captures b piece (col_offset ∷ offsets) =
    let diagonal = shift piece.cell (forward_step piece.color, col_offset) in
    let rest = diagonal_captures b piece offsets in
    if holds_enemy b piece.color diagonal then diagonal ∷ rest else rest

-- A subclass of IMovementRule for each constructor.
pub data MovementRule : Type 0 where
  king_rule queen_rule rook_rule bishop_rule knight_rule pawn_rule drone_rule : MovementRule

unfoldable pub legal_destinations : MovementRule → Board → Piece → List Position
unfolding sliding_destinations stepping_destinations forward_moves diagonal_captures
legal_destinations king_rule b piece = stepping_destinations b piece king_offsets
legal_destinations queen_rule b piece = sliding_destinations b piece queen_directions
legal_destinations rook_rule b piece = sliding_destinations b piece rook_directions
legal_destinations bishop_rule b piece = sliding_destinations b piece bishop_directions
legal_destinations knight_rule b piece = stepping_destinations b piece knight_offsets
legal_destinations pawn_rule b piece =
    forward_moves b piece ++ diagonal_captures b piece (minus_one ∷ pos 1 ∷ [])
legal_destinations drone_rule b piece = stepping_destinations b piece drone_offsets

abbrev pub kind_eq : PieceKind → PieceKind → Bool
kind_eq king king = true
kind_eq queen queen = true
kind_eq rook rook = true
kind_eq bishop bishop = true
kind_eq knight knight = true
kind_eq pawn pawn = true
kind_eq drone drone = true
kind_eq _ _ = false

-- The map of the registry, newest entry first.
abbrev pub PieceRuleRegistry : Type 0
PieceRuleRegistry = List (PieceKind × MovementRule)

unfoldable pub register_rule : PieceKind → MovementRule → PieceRuleRegistry → PieceRuleRegistry
register_rule key rule [] = (key, rule) ∷ []
register_rule key rule ((k, r) ∷ rest) =
    if kind_eq k key then (key, rule) ∷ rest else (k, r) ∷ register_rule key rule rest

unfoldable pub rule_for : PieceKind → PieceRuleRegistry → Result MovementRule
rule_for key [] = err out_of_range
rule_for key ((k, r) ∷ rest) = if kind_eq k key then ok r else rule_for key rest

unfoldable pub make_full_piece_rule_registry : PieceRuleRegistry
unfolding register_rule
make_full_piece_rule_registry = register_rule drone drone_rule (
    register_rule pawn pawn_rule (
      register_rule king king_rule (
        register_rule knight knight_rule (
          register_rule queen queen_rule
            (register_rule bishop bishop_rule (register_rule rook rook_rule []))))))
