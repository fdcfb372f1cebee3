-- ===== src/Protocol/Values.antt =====
-- The values of protocol/src/kfc/protocol/json.cpp: what is written for each, and what is read.
use kung_fu_chess.Prelude.{
  string_eq, ℕ, pos, ltb, if◌then◌else◌, Option, none, some, List, [], ◌∷◌, map, length,
}
use kung_fu_chess.Model.{
  Position, Piece, PieceColor, white, black, PieceKind, king, queen, rook, bishop, knight, pawn,
  drone, PieceState, idle, moving, airborne, captured,
}
use kung_fu_chess.RealTime.{Motion, MotionKind, move, jump_in_place, ArrivalEvent}
use kung_fu_chess.Server.{BoardSnapshot}
use kung_fu_chess.Server.Audience.{Name}
use kung_fu_chess.Protocol.Library.{JsonLibrary}
use kung_fu_chess.Protocol.Keys.{
  type_key, payload_key, source_key, destination_key, cell_key, row_key, col_key, id_key, color_key,
  kind_key, state_key, has_moved_key, moved_piece_key, was_promotion_key, arrived_at_key,
  captured_piece_key, moving_piece_key, duration_key, elapsed_key, cooldown_key, width_key,
  height_key, pieces_key,
}

-- kMaxMessageBytes.
abbrev pub longest_message : ℕ
longest_message = 1048576

-- An exception on the way is none.
abbrev pub then_read : {A B : Type 0} → Option A → (A → Option B) → Option B
then_read none f = none
then_read (some a) f = f a

-- EnumNames::named_value.
unfoldable pub named_value : {A : Type 0} → List (A × Name) → Name → Option A
unfolding string_eq
named_value [] name = none
named_value ((value, candidate) ∷ entries) name =
    let rest = named_value entries name in if string_eq candidate name then some value else rest

unfoldable pub color_name : PieceColor → Name
color_name white = 87 ∷ 104 ∷ 105 ∷ 116 ∷ 101 ∷ []
color_name black = 66 ∷ 108 ∷ 97 ∷ 99 ∷ 107 ∷ []

abbrev pub color_names : List (PieceColor × Name)
color_names = map (λ x. (x, color_name x)) (white ∷ black ∷ [])

unfoldable pub kind_name : PieceKind → Name
kind_name king = 75 ∷ 105 ∷ 110 ∷ 103 ∷ []
kind_name queen = 81 ∷ 117 ∷ 101 ∷ 101 ∷ 110 ∷ []
kind_name rook = 82 ∷ 111 ∷ 111 ∷ 107 ∷ []
kind_name bishop = 66 ∷ 105 ∷ 115 ∷ 104 ∷ 111 ∷ 112 ∷ []
kind_name knight = 75 ∷ 110 ∷ 105 ∷ 103 ∷ 104 ∷ 116 ∷ []
kind_name pawn = 80 ∷ 97 ∷ 119 ∷ 110 ∷ []
kind_name drone = 68 ∷ 114 ∷ 111 ∷ 110 ∷ 101 ∷ []

abbrev pub kind_names : List (PieceKind × Name)
kind_names = map (λ x. (x, kind_name x)) (king ∷ queen ∷ rook ∷ bishop ∷ knight ∷ pawn ∷ drone ∷ [])

unfoldable pub state_name : PieceState → Name
state_name idle = 73 ∷ 100 ∷ 108 ∷ 101 ∷ []
state_name moving = 77 ∷ 111 ∷ 118 ∷ 105 ∷ 110 ∷ 103 ∷ []
state_name airborne = 65 ∷ 105 ∷ 114 ∷ 98 ∷ 111 ∷ 114 ∷ 110 ∷ 101 ∷ []
state_name captured = 67 ∷ 97 ∷ 112 ∷ 116 ∷ 117 ∷ 114 ∷ 101 ∷ 100 ∷ []

abbrev pub state_names : List (PieceState × Name)
state_names = map (λ x. (x, state_name x)) (idle ∷ moving ∷ airborne ∷ captured ∷ [])

unfoldable pub motion_kind_name : MotionKind → Name
motion_kind_name move = 77 ∷ 111 ∷ 118 ∷ 101 ∷ []
motion_kind_name jump_in_place = 74 ∷ 117 ∷ 109 ∷ 112 ∷ 73 ∷ 110 ∷ 80 ∷ 108 ∷ 97 ∷ 99 ∷ 101 ∷ []

abbrev pub motion_kind_names : List (MotionKind × Name)
motion_kind_names = map (λ x. (x, motion_kind_name x)) (move ∷ jump_in_place ∷ [])

module _ (L : JsonLibrary) where
  open L use {
    Json, of_object, of_text, of_int, of_bool, of_array, find_field, to_text, to_int, to_natural,
    to_bool, to_array, parse,
  }

  -- j.at(key).get_to.
  abbrev pub read_field : {A : Type 0} → Name → (Json → Option A) → Json → Option A
  read_field key read j = then_read (find_field key j) read

  abbrev pub read_text : Name → Json → Option Name
  read_text key j = read_field key to_text j

  -- A list is read when all of it is.
  abbrev pub read_all : {A : Type 0} → (Json → Option A) → List Json → Option (List A)
  read_all read [] = some []
  read_all read (j ∷ js) =
      then_read (read j) (λ x. then_read (read_all read js) (λ xs. some (x ∷ xs)))

  abbrev pub read_list : {A : Type 0} → (Json → Option A) → Json → Option (List A)
  read_list read j = then_read (to_array j) (read_all read)

  abbrev pub read_named : {A : Type 0} → List (A × Name) → Json → Option A
  read_named names j = then_read (to_text j) (named_value names)

  unfoldable pub position_json : Position → Json
  position_json p = of_object ((row_key, of_int p.row) ∷ (col_key, of_int p.col) ∷ [])

  unfoldable pub read_position : Json → Option Position
  read_position j = then_read (read_field row_key to_int j) (λ row.
      then_read (read_field col_key to_int j) (λ col. some (record { row = row; col = col })))

  abbrev pub position_at : Name → Json → Option Position
  position_at key j = read_field key read_position j

  unfoldable pub piece_json : Piece → Json
  unfolding position_json color_name kind_name state_name
  piece_json x = of_object (
      (id_key, of_int (pos x.id))
      ∷ (color_key, of_text (color_name x.color))
      ∷ (kind_key, of_text (kind_name x.kind))
      ∷ (cell_key, position_json x.cell)
      ∷ (state_key, of_text (state_name x.state))
      ∷ (has_moved_key, of_bool x.has_moved)
      ∷ [])

  unfoldable pub read_piece : Json → Option Piece
  unfolding read_position named_value
  read_piece j = then_read (read_field id_key to_natural j) (λ id.
      then_read (read_field color_key (read_named color_names) j) (λ color.
        then_read (read_field kind_key (read_named kind_names) j) (λ kind.
          then_read (read_field cell_key read_position j) (λ cell.
            then_read (read_field state_key (read_named state_names) j) (λ state.
              then_read (read_field has_moved_key to_bool j) (λ has_moved. some (record {
                id = id;
                color = color;
                kind = kind;
                cell = cell;
                state = state;
                has_moved = has_moved;
              })))))))

  abbrev pub captured_field : Option Piece → List (Name × Json)
  captured_field none = []
  captured_field (some x) = (captured_piece_key, piece_json x) ∷ []

  unfoldable pub arrival_json : ArrivalEvent → Json
  unfolding piece_json motion_kind_name
  arrival_json e = of_object (
      (moved_piece_key, piece_json e.moved_piece)
      ∷ (source_key, position_json e.source)
      ∷ (destination_key, position_json e.destination)
      ∷ (kind_key, of_text (motion_kind_name e.kind))
      ∷ (was_promotion_key, of_bool e.was_promotion)
      ∷ (arrived_at_key, of_int (pos e.arrived_at_ms))
      ∷ captured_field e.captured_piece)

  -- A value that may be absent.
  abbrev pub read_present : {A : Type 0} → (Json → Option A) → Option Json → Option (Option A)
  read_present read none = some none
  read_present read (some j) = then_read (read j) (λ x. some (some x))

  unfoldable pub read_arrival : Json → Option ArrivalEvent
  unfolding read_piece
  read_arrival j = then_read (read_field moved_piece_key read_piece j) (λ moved_piece.
      then_read (read_field source_key read_position j) (λ source.
        then_read (read_field destination_key read_position j) (λ destination.
          then_read (read_field kind_key (read_named motion_kind_names) j) (λ kind.
            then_read (read_field was_promotion_key to_bool j) (λ was_promotion.
              then_read (read_field arrived_at_key to_natural j) (λ arrived_at_ms.
                then_read (read_present read_piece (find_field captured_piece_key j))
                  (λ captured_piece. some (record {
                    moved_piece = moved_piece;
                    source = source;
                    destination = destination;
                    captured_piece = captured_piece;
                    kind = kind;
                    was_promotion = was_promotion;
                    arrived_at_ms = arrived_at_ms;
                  }))))))))

  unfoldable pub motion_json : Motion → Json
  unfolding piece_json motion_kind_name
  motion_json m = of_object (
      (moving_piece_key, piece_json m.moving_piece)
      ∷ (source_key, position_json m.source)
      ∷ (destination_key, position_json m.destination)
      ∷ (kind_key, of_text (motion_kind_name m.kind))
      ∷ (duration_key, of_int (pos m.duration_ms))
      ∷ (elapsed_key, of_int (pos m.elapsed_ms))
      ∷ (cooldown_key, of_int (pos m.cooldown_ms))
      ∷ [])

  unfoldable pub read_motion : Json → Option Motion
  unfolding read_piece
  read_motion j = then_read (read_field moving_piece_key read_piece j) (λ moving_piece.
      then_read (read_field source_key read_position j) (λ source.
        then_read (read_field destination_key read_position j) (λ destination.
          then_read (read_field kind_key (read_named motion_kind_names) j) (λ kind.
            then_read (read_field duration_key to_natural j) (λ duration_ms.
              then_read (read_field elapsed_key to_natural j) (λ elapsed_ms.
                then_read (read_field cooldown_key to_natural j) (λ cooldown_ms. some (record {
                  moving_piece = moving_piece;
                  source = source;
                  destination = destination;
                  kind = kind;
                  duration_ms = duration_ms;
                  elapsed_ms = elapsed_ms;
                  cooldown_ms = cooldown_ms;
                }))))))))

  unfoldable pub snapshot_json : BoardSnapshot → Json
  unfolding piece_json
  snapshot_json s = of_object (
      (width_key, of_int (pos s.width))
      ∷ (height_key, of_int (pos s.height))
      ∷ (pieces_key, of_array (map piece_json s.pieces))
      ∷ [])

  unfoldable pub read_snapshot : Json → Option BoardSnapshot
  unfolding read_piece
  read_snapshot j = then_read (read_field width_key to_natural j) (λ width.
      then_read (read_field height_key to_natural j) (λ height.
        then_read (read_field pieces_key (read_list read_piece) j)
          (λ pieces. some (record { width = width; height = height; pieces = pieces }))))

  unfoldable pub envelope : Name → Json → Json
  envelope type payload = of_object ((type_key, of_text type) ∷ (payload_key, payload) ∷ [])

  unfoldable pub parse_envelope : List ℕ → Option Json
  parse_envelope text = if ltb longest_message (length text) then none else parse text
