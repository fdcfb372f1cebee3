-- ===== src/RealTime/Arbiter/Arrivals.antt =====
-- resolve_arrival: what one motion does to the board when it arrives.
use kung_fu_chess.Prelude.{Bool, true, false, not, ◌||◌, if◌then◌else◌, none, Result, ok, ◌>>=◌}
use kung_fu_chess.Model.{Piece, idle}
use kung_fu_chess.Model.Board.{Board, piece_at, add_piece, remove_piece, set_piece_state}
use kung_fu_chess.RealTime.Factory.{Motion, is_jump}
use kung_fu_chess.RealTime.Collision.{
  CollisionResult, enemy_captured, friendly_blocked, passed_through_airborne, CollisionKind,
  resolve, apply_pawn_promotion, ArrivalEvent,
}

pub record ResolvedArrival : Type 0 where
  pub event : ArrivalEvent
  pub piece_actually_arrived : Bool

abbrev pub clears_destination : CollisionKind → Bool
clears_destination enemy_captured = true
clears_destination passed_through_airborne = true
clears_destination _ = false

abbrev pub landed : Motion → Piece
landed m = record m.moving_piece {
  cell = m.destination;
  state = idle;
  has_moved = m.moving_piece.has_moved || not (is_jump m.kind);
}

abbrev pub blocked_report : Motion → ResolvedArrival
blocked_report m = record {
  event = record {
    moved_piece = record m.moving_piece { state = idle };
    source = m.source;
    destination = m.source;
    captured_piece = none;
    kind = m.kind;
    was_promotion = false;
    arrived_at_ms = 0;
  };
  piece_actually_arrived = false;
}

abbrev pub landed_report : Motion → CollisionResult → Piece × Bool → ResolvedArrival
landed_report m collision (arrived, promoted) = record {
  event = record {
    moved_piece = arrived;
    source = m.source;
    destination = m.destination;
    captured_piece = collision.captured_piece;
    kind = m.kind;
    was_promotion = promoted;
    arrived_at_ms = 0;
  };
  piece_actually_arrived = true;
}

-- The branch of `resolve_arrival` that stops at a friend.
unfoldable pub block_arrival : Motion → Board → Result (ResolvedArrival × Board)
block_arrival m b = do b' ← set_piece_state b m.source idle; ok (blocked_report m, b')

abbrev clear_destination : CollisionKind → Motion → Board → Result Board
clear_destination k m b = if clears_destination k then remove_piece b m.destination else ok b

-- The other branch: the mover lands.
unfoldable pub land : Motion → CollisionResult → Board → Result (ResolvedArrival × Board)
land m collision b = do
  b' ← clear_destination collision.kind m b
  b'' ← remove_piece b' m.source
  let arrived = apply_pawn_promotion (landed m) b''
  b''' ← add_piece b'' arrived.0
  ok (landed_report m collision arrived, b''')

abbrev pub is_blocked : CollisionKind → Bool
is_blocked friendly_blocked = true
is_blocked _ = false

unfoldable pub resolve_arrival : Motion → Board → Result (ResolvedArrival × Board)
resolve_arrival m b =
    let collision = resolve m.moving_piece (piece_at b m.destination) in
    if is_blocked collision.kind then block_arrival m b else land m collision b
