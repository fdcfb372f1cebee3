-- ===== src/Rules/Engine.antt =====
-- logic/src/kfc/rules/rule_engine.cpp, with the codes of move_reasons.hpp.
use kung_fu_chess.Prelude.{
  Bool, true, false, not, ◌||◌, if◌then◌else◌, none, some, List, [], ◌∷◌, Result, ok, ◌>>=◌,
}
use kung_fu_chess.Model.{Position, Piece, position_eq, color_eq}
use kung_fu_chess.Model.Board.{Board, in_bounds, piece_at}
use kung_fu_chess.Rules.Pieces.{PieceRuleRegistry, rule_for, legal_destinations}

pub data MoveReason : Type 0 where
  reason_ok outside_board empty_source friendly_destination illegal_piece_move : MoveReason
  game_over motion_in_progress not_your_piece opponent_disconnected match_not_started : MoveReason

pub record MoveValidation : Type 0 where
  pub is_valid : Bool
  pub reason : MoveReason

abbrev pub rejected : MoveReason → MoveValidation
rejected why = record { is_valid = false; reason = why }

-- std::find over the destinations.
unfoldable pub contains : Position → List Position → Bool
contains p [] = false
contains p (q ∷ qs) = position_eq q p || contains p qs

unfoldable pub friendly_at : Board → Piece → Position → Bool
friendly_at b moving destination = elim (piece_at b destination) [
  | none ↦ false
  | some occupant ↦ color_eq occupant.color moving.color
]

unfoldable pub validate_piece : PieceRuleRegistry → Board → Piece → Position → Result MoveValidation
unfolding friendly_at
validate_piece rules b moving destination =
    if friendly_at b moving destination then ok (rejected friendly_destination) else do
      rule ← rule_for moving.kind rules
      ok (
          if contains destination (legal_destinations rule b moving)
          then record { is_valid = true; reason = reason_ok }
          else rejected illegal_piece_move)

unfoldable pub validate_move :
    PieceRuleRegistry → Board → Position → Position → Result MoveValidation
unfolding validate_piece
validate_move rules b source destination =
    if not (in_bounds b source) || not (in_bounds b destination)
    then ok (rejected outside_board)
    else (elim (piece_at b source) [
      | none ↦ ok (rejected empty_source)
      | some moving ↦ validate_piece rules b moving destination
    ])
