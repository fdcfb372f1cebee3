-- ===== src/Server/Messages.antt =====
-- protocol/include/kfc/protocol/messages.hpp, as values before they are encoded, and `snapshot_of`
-- of protocol/src/kfc/protocol/json.cpp.
use kung_fu_chess.Prelude.{ℕ, suc, zero, ◌-◌, Bool, Option, List, [], ◌∷◌, ◌++◌, pos}
use kung_fu_chess.Model.{PieceColor, Piece, Position}
use kung_fu_chess.Model.Board.{Board, piece_at}
use kung_fu_chess.Rules.{MoveReason}
use kung_fu_chess.RealTime.{Motion, ArrivalEvent}
use kung_fu_chess.Server.Audience.{Name, to_list}

pub record BoardSnapshot : Type 0 where
  pub width : ℕ
  pub height : ℕ
  pub pieces : List Piece

-- The squares of one row from the column `width - left` on.
unfoldable pub row_pieces : Board → ℕ → ℕ → List Piece
row_pieces b row zero = []
row_pieces b row (suc left) =
    to_list (piece_at b (record { row = pos row; col = pos (b.width - suc left) }))
    ++ row_pieces b row left

unfoldable pub rows_pieces : Board → ℕ → List Piece
unfolding row_pieces
rows_pieces b zero = []
rows_pieces b (suc left) = row_pieces b (b.height - suc left) b.width ++ rows_pieces b left

unfoldable pub snapshot_of : Board → BoardSnapshot
unfolding rows_pieces
snapshot_of b = record { width = b.width; height = b.height; pieces = rows_pieces b b.height }

pub record Welcome : Type 0 where
  pub assigned_color : PieceColor
  pub board : BoardSnapshot
  pub spectator : Bool
  pub room : Name
  pub history : List ArrivalEvent
  pub revision : ℕ
  pub white_username : Name
  pub black_username : Name
  pub white_rating : ℕ
  pub black_rating : ℕ

pub data ClientMessage : Type 0 where
  login : Name → Name → ClientMessage
  play create_room resign : ClientMessage
  join_room : Name → ClientMessage
  move_request : Position → Position → ClientMessage
  jump_request : Position → ClientMessage

pub data ServerMessage : Type 0 where
  welcome : Welcome → ServerMessage
  motion_started : Motion → ServerMessage
  board_update : List ArrivalEvent → ℕ → ServerMessage
  move_rejected : Name → ServerMessage
  game_ended : Option PieceColor → ServerMessage
  opponent_disconnected : ℕ → ServerMessage
  match_start : Name → Name → ℕ → ℕ → ServerMessage
  join_failed join_redirect login_failed : Name → ServerMessage
  opponent_reconnected : ServerMessage

-- The constants of move_reasons.hpp.
unfoldable pub reason_name : MoveReason → Name
reason_name MoveReason.reason_ok = 111 ∷ 107 ∷ []
reason_name MoveReason.outside_board =
    111 ∷ 117 ∷ 116 ∷ 115 ∷ 105 ∷ 100 ∷ 101 ∷ 95 ∷ 98 ∷ 111 ∷ 97 ∷ 114 ∷ 100 ∷ []
reason_name MoveReason.empty_source =
    101 ∷ 109 ∷ 112 ∷ 116 ∷ 121 ∷ 95 ∷ 115 ∷ 111 ∷ 117 ∷ 114 ∷ 99 ∷ 101 ∷ []
reason_name MoveReason.friendly_destination =
    102 ∷ 114 ∷ 105 ∷ 101 ∷ 110 ∷ 100 ∷ 108 ∷ 121 ∷ 95 ∷ 100 ∷ 101 ∷ 115 ∷ 116 ∷ 105 ∷ 110 ∷ 97
    ∷ 116 ∷ 105 ∷ 111 ∷ 110 ∷ []
reason_name MoveReason.illegal_piece_move =
    105 ∷ 108 ∷ 108 ∷ 101 ∷ 103 ∷ 97 ∷ 108 ∷ 95 ∷ 112 ∷ 105 ∷ 101 ∷ 99 ∷ 101 ∷ 95 ∷ 109 ∷ 111 ∷ 118
    ∷ 101 ∷ []
reason_name MoveReason.game_over = 103 ∷ 97 ∷ 109 ∷ 101 ∷ 95 ∷ 111 ∷ 118 ∷ 101 ∷ 114 ∷ []
reason_name MoveReason.motion_in_progress =
    109 ∷ 111 ∷ 116 ∷ 105 ∷ 111 ∷ 110 ∷ 95 ∷ 105 ∷ 110 ∷ 95 ∷ 112 ∷ 114 ∷ 111 ∷ 103 ∷ 114 ∷ 101
    ∷ 115 ∷ 115 ∷ []
reason_name MoveReason.not_your_piece =
    110 ∷ 111 ∷ 116 ∷ 95 ∷ 121 ∷ 111 ∷ 117 ∷ 114 ∷ 95 ∷ 112 ∷ 105 ∷ 101 ∷ 99 ∷ 101 ∷ []
reason_name MoveReason.opponent_disconnected =
    111 ∷ 112 ∷ 112 ∷ 111 ∷ 110 ∷ 101 ∷ 110 ∷ 116 ∷ 95 ∷ 100 ∷ 105 ∷ 115 ∷ 99 ∷ 111 ∷ 110 ∷ 110
    ∷ 101 ∷ 99 ∷ 116 ∷ 101 ∷ 100 ∷ []
reason_name MoveReason.match_not_started =
    109 ∷ 97 ∷ 116 ∷ 99 ∷ 104 ∷ 95 ∷ 110 ∷ 111 ∷ 116 ∷ 95 ∷ 115 ∷ 116 ∷ 97 ∷ 114 ∷ 116 ∷ 101 ∷ 100
    ∷ []
