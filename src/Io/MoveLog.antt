-- ===== src/Io/MoveLog.antt =====
-- logic/src/kfc/realtime/move_log_observer.cpp: the arrivals of each side as text.
use kung_fu_chess.Prelude.{
  has_value, ℕ, zero, suc, ◌+◌, ◌*◌, ◌/◌, ◌%◌, ltb, ℤ, pos, negsuc, ◌-ℤ◌, if◌then◌else◌, Option,
  none, some, List, [], ◌∷◌, ◌++◌,
}
use kung_fu_chess.Model.{Position, Piece, PieceColor, white, black, PieceKind, is_pawn}
use kung_fu_chess.RealTime.{ArrivalEvent, is_jump}
use kung_fu_chess.Io.Tokens.{Text, letter_for_kind, piece_token_text}

-- std::to_string: the digits of a number, of which there are no more than `fuel`.
unfoldable pub decimal_within : ℕ → ℕ → Text
decimal_within zero n = []
decimal_within (suc fuel) n =
    let rest = decimal_within fuel (n / 10) in
    if ltb n 10 then (48 + n) ∷ [] else rest ++ (48 + n % 10) ∷ []

unfoldable pub decimal : ℕ → Text
unfolding decimal_within
decimal n = decimal_within (suc n) n

unfoldable pub int_decimal : ℤ → Text
unfolding decimal
int_decimal (pos n) = decimal n
int_decimal (negsuc n) = 45 ∷ decimal (suc n)

-- to_string of a Position.
unfoldable pub position_text : Position → Text
unfolding int_decimal
position_text p = 40 ∷ (int_decimal p.row ++ (44 ∷ (int_decimal p.col ++ 41 ∷ [])))

-- 'a' + col as a char, of eight bits.
abbrev pub algebraic_file : ℤ → ℕ
algebraic_file (pos c) = (97 + c) % 256
algebraic_file (negsuc c) = (97 + 255 * suc c) % 256

unfoldable pub algebraic_square : Position → ℕ → Text
unfolding int_decimal
algebraic_square p height = algebraic_file p.col ∷ int_decimal (pos height -ℤ p.row)

-- No letter for a pawn.
unfoldable pub algebraic_piece_prefix : PieceKind → Text
unfolding letter_for_kind
algebraic_piece_prefix kind = if is_pawn kind then [] else letter_for_kind kind ∷ []

-- The file of the source and an x, for a pawn that captures.
abbrev pub pawn_notation : ArrivalEvent → Text → Text
pawn_notation e destination =
    if has_value e.captured_piece
    then algebraic_file e.source.col ∷ 120 ∷ destination
    else destination

unfoldable pub algebraic_notation : ArrivalEvent → ℕ → Text
unfolding algebraic_square algebraic_piece_prefix
algebraic_notation e height =
    let destination = algebraic_square e.destination height in
    if is_jump e.kind
    then algebraic_piece_prefix e.moved_piece.kind ++ (destination ++ 40 ∷ 74 ∷ 41 ∷ [])
    else if e.was_promotion
    then pawn_notation e destination ++ 61 ∷ letter_for_kind e.moved_piece.kind ∷ []
    else if is_pawn e.moved_piece.kind
    then pawn_notation e destination
    else algebraic_piece_prefix e.moved_piece.kind
      ++ ((if has_value e.captured_piece then 120 ∷ [] else []) ++ destination)

-- MoveLogEntry.
pub record MoveLogEntry : Type 0 where
  pub time_ms : ℕ
  pub notation : Text

pub record MoveLogObserver : Type 0 where
  pub board_height : ℕ
  pub white_moves : List Text
  pub black_moves : List Text
  pub white_entries : List MoveLogEntry
  pub black_entries : List MoveLogEntry

unfoldable pub new_move_log : ℕ → MoveLogObserver
new_move_log height = record {
  board_height = height;
  white_moves = [];
  black_moves = [];
  white_entries = [];
  black_entries = [];
}

abbrev pub captured_text : Option Piece → Text
unfolding piece_token_text
captured_text none = []
captured_text (some x) = 32 ∷ 120 ∷ piece_token_text x.color x.kind

unfoldable pub move_text : ArrivalEvent → Text
unfolding piece_token_text position_text
move_text e =
    (piece_token_text e.moved_piece.color e.moved_piece.kind
      ++ (32 ∷ (position_text e.source ++ (45 ∷ 62 ∷ position_text e.destination))))
    ++ (captured_text e.captured_piece
        ++ (if is_jump e.kind
            then 32 ∷ 40 ∷ 106 ∷ 117 ∷ 109 ∷ 112 ∷ 41 ∷ []
            else if e.was_promotion
            then 32 ∷ 40 ∷ 112 ∷ 114 ∷ 111 ∷ 109 ∷ 111 ∷ 116 ∷ 101 ∷ 100 ∷ 41 ∷ []
            else []))

unfoldable pub entry_for : ArrivalEvent → ℕ → MoveLogEntry
unfolding algebraic_notation
entry_for e height = record { time_ms = e.arrived_at_ms; notation = algebraic_notation e height }

-- on_arrival.
unfoldable pub log_for : PieceColor → ArrivalEvent → MoveLogObserver → MoveLogObserver
unfolding move_text entry_for
log_for white e o = record o {
  white_moves = o.white_moves ++ move_text e ∷ [];
  white_entries = o.white_entries ++ entry_for e o.board_height ∷ [];
}
log_for black e o = record o {
  black_moves = o.black_moves ++ move_text e ∷ [];
  black_entries = o.black_entries ++ entry_for e o.board_height ∷ [];
}

unfoldable pub log_arrival : ArrivalEvent → MoveLogObserver → MoveLogObserver
unfolding log_for
log_arrival e o = log_for e.moved_piece.color e o

unfoldable pub logged_moves : PieceColor → MoveLogObserver → List Text
logged_moves white o = o.white_moves
logged_moves black o = o.black_moves

unfoldable pub logged_entries : PieceColor → MoveLogObserver → List MoveLogEntry
logged_entries white o = o.white_entries
logged_entries black o = o.black_entries
