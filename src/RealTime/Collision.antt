-- ===== src/RealTime/Collision.antt =====
-- collision_resolver.cpp, pawn_promotion.hpp and arrival_event.hpp.
use kung_fu_chess.Prelude.{
  ℕ, Bool, true, false, ◌&&◌, ◌==◌, if◌then◌else◌, ℤ, pos, ◌-ℤ◌, ◌==ℤ◌, Option, none, some,
}
use kung_fu_chess.Model.{
  Position, Piece, PieceColor, white, black, queen, captured, color_eq, is_king, is_pawn,
  is_airborne,
}
use kung_fu_chess.Model.Board.{Board}
use kung_fu_chess.RealTime.Factory.{MotionKind}

pub data CollisionKind : Type 0 where
  vacated_cell enemy_captured friendly_blocked passed_through_airborne : CollisionKind

pub record CollisionResult : Type 0 where
  pub kind : CollisionKind
  pub captured_piece : Option Piece

abbrev pub taken : Piece → Piece
taken occupant = record occupant { state = captured }

unfoldable pub resolve : Piece → Option Piece → CollisionResult
resolve mover none = record { kind = vacated_cell; captured_piece = none }
resolve mover (some occupant) =
    if occupant.id == mover.id
    then record { kind = vacated_cell; captured_piece = none }
    else if color_eq occupant.color mover.color
    then record { kind = friendly_blocked; captured_piece = none }
    else if is_airborne occupant.state
    then record { kind = passed_through_airborne; captured_piece = none }
    else record { kind = enemy_captured; captured_piece = some (taken occupant) }

abbrev promotion_row : PieceColor → Board → ℤ
promotion_row white b = pos 0
promotion_row black b = pos b.height -ℤ pos 1

-- The piece after promotion, and whether it was promoted.
unfoldable pub apply_pawn_promotion : Piece → Board → Piece × Bool
unfolding ◌-ℤ◌
apply_pawn_promotion arrived b =
    if is_pawn arrived.kind && (arrived.cell.row ==ℤ promotion_row arrived.color b)
    then (record arrived { kind = queen }, true)
    else (arrived, false)

pub record ArrivalEvent : Type 0 where
  pub moved_piece : Piece
  pub source : Position
  pub destination : Position
  pub captured_piece : Option Piece
  pub kind : MotionKind
  pub was_promotion : Bool
  pub arrived_at_ms : ℕ

unfoldable pub captured_a_king : ArrivalEvent → Bool
captured_a_king e = elim e.captured_piece [ none ↦ false | some p ↦ is_king p.kind ]
