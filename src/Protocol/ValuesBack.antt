-- ===== src/Protocol/ValuesBack.antt =====
-- Each value that is written as JSON is the value that is read.
use kung_fu_chess.Prelude.{string_eq, ◌≡◌, refl, Option, none, some, List, [], ◌∷◌, map}
use kung_fu_chess.Model.{
  Position, Piece, PieceColor, white, black, PieceKind, king, queen, rook, bishop, knight, pawn,
  drone, PieceState, idle, moving, airborne, captured,
}
use kung_fu_chess.RealTime.{Motion, MotionKind, move, jump_in_place, ArrivalEvent}
use kung_fu_chess.Server.{BoardSnapshot}
use kung_fu_chess.Server.Audience.{Name}
use kung_fu_chess.Protocol.Library.{JsonLibrary, find_name}
use kung_fu_chess.Protocol.Values.{
  read_field, read_all, read_list, read_named, position_json, read_position, piece_json, read_piece,
  arrival_json, read_arrival, motion_json, read_motion, snapshot_json, read_snapshot,
  captured_field, read_present, named_value, color_name, color_names, kind_name, kind_names,
  state_name, state_names, motion_kind_name, motion_kind_names,
}
use kung_fu_chess.Protocol.Keys.{captured_piece_key}

pub color_back : (c : PieceColor) → named_value color_names (color_name c) ≡ some c
unfolding named_value color_name string_eq
color_back white = refl
color_back black = refl

kind_back : (k : PieceKind) → named_value kind_names (kind_name k) ≡ some k
unfolding named_value kind_name string_eq
kind_back king = refl
kind_back queen = refl
kind_back rook = refl
kind_back bishop = refl
kind_back knight = refl
kind_back pawn = refl
kind_back drone = refl

state_back : (s : PieceState) → named_value state_names (state_name s) ≡ some s
unfolding named_value state_name string_eq
state_back idle = refl
state_back moving = refl
state_back airborne = refl
state_back captured = refl

motion_kind_back : (k : MotionKind) → named_value motion_kind_names (motion_kind_name k) ≡ some k
unfolding named_value motion_kind_name string_eq
motion_kind_back move = refl
motion_kind_back jump_in_place = refl

module _ (L : JsonLibrary) where
  open L use {
    Json, of_object, of_text, of_int, of_bool, of_array, find_field, to_text, to_int, to_natural,
    to_bool, to_array,
  }

  -- A field is read as what it was written from.
  pub read_field_back :
      {A : Type 0} (key : Name) (read : Json → Option A) (fields : List (Name × Json)) (j : Json)
      (x : A)
      → find_name key fields ≡ some j
      → read j ≡ some x
      → read_field L key read (of_object fields) ≡ some x
  read_field_back key read fields j x e r = rw (L.object_back key fields, e) r

  pub read_named_back :
      {A : Type 0} (names : List (A × Name)) (name : Name) (x : A)
      → named_value names name ≡ some x
      → read_named L names (of_text name) ≡ some x
  read_named_back names name x e = rw (L.text_back name) e

  read_all_back :
      {A : Type 0} (write : A → Json) (read : Json → Option A)
      → ((x : A) → read (write x) ≡ some x)
      → (xs : List A) → read_all L read (map write xs) ≡ some xs
  read_all_back write read h [] = refl
  read_all_back write read h (x ∷ xs) = rw (h x, read_all_back write read h xs) refl

  pub read_list_back :
      {A : Type 0} (write : A → Json) (read : Json → Option A)
      → ((x : A) → read (write x) ≡ some x)
      → (xs : List A) → read_list L read (of_array (map write xs)) ≡ some xs
  read_list_back write read h xs = rw (L.array_back (map write xs)) (read_all_back write read h xs)

  pub position_back : (p : Position) → read_position L (position_json L p) ≡ some p
  unfolding read_position position_json string_eq
  position_back p =
      rw
        (
          read_field_back _ to_int _ _ p.row refl (L.int_back p.row),
          read_field_back _ to_int _ _ p.col refl (L.int_back p.col),
        )
        refl

  pub piece_back : (x : Piece) → read_piece L (piece_json L x) ≡ some x
  unfolding read_piece piece_json string_eq
  piece_back x =
      rw
        (
          read_field_back _ to_natural _ _ x.id refl (L.natural_back x.id),
          read_field_back _ (read_named L color_names) _ _ x.color refl
              (read_named_back color_names (color_name x.color) x.color (color_back x.color)),
          read_field_back _ (read_named L kind_names) _ _ x.kind refl
              (read_named_back kind_names (kind_name x.kind) x.kind (kind_back x.kind)),
          read_field_back _ (read_position L) _ _ x.cell refl (position_back x.cell),
          read_field_back _ (read_named L state_names) _ _ x.state refl
              (read_named_back state_names (state_name x.state) x.state (state_back x.state)),
          read_field_back _ to_bool _ _ x.has_moved refl (L.bool_back x.has_moved),
        )
        refl

  captured_back :
      (o : Option Piece)
      → read_present L (read_piece L) (find_name captured_piece_key (captured_field L o)) ≡ some o
  unfolding string_eq
  captured_back none = refl
  captured_back (some x) = rw (piece_back x) refl

  pub arrival_back : (e : ArrivalEvent) → read_arrival L (arrival_json L e) ≡ some e
  unfolding read_arrival arrival_json string_eq
  arrival_back e =
      rw
        (
          read_field_back _ (read_piece L) _ _ e.moved_piece refl (piece_back e.moved_piece),
          read_field_back _ (read_position L) _ _ e.source refl (position_back e.source),
          read_field_back _ (read_position L) _ _ e.destination refl (position_back e.destination),
          read_field_back _ (read_named L motion_kind_names) _ _ e.kind refl (
              read_named_back motion_kind_names (motion_kind_name e.kind) e.kind
                (motion_kind_back e.kind)),
          read_field_back _ to_bool _ _ e.was_promotion refl (L.bool_back e.was_promotion),
          read_field_back _ to_natural _ _ e.arrived_at_ms refl (L.natural_back e.arrived_at_ms),
          L.object_back captured_piece_key,
          captured_back e.captured_piece,
        )
        refl

  pub motion_back : (m : Motion) → read_motion L (motion_json L m) ≡ some m
  unfolding read_motion motion_json string_eq
  motion_back m =
      rw
        (
          read_field_back _ (read_piece L) _ _ m.moving_piece refl (piece_back m.moving_piece),
          read_field_back _ (read_position L) _ _ m.source refl (position_back m.source),
          read_field_back _ (read_position L) _ _ m.destination refl (position_back m.destination),
          read_field_back _ (read_named L motion_kind_names) _ _ m.kind refl (
              read_named_back motion_kind_names (motion_kind_name m.kind) m.kind
                (motion_kind_back m.kind)),
          read_field_back _ to_natural _ _ m.duration_ms refl (L.natural_back m.duration_ms),
          read_field_back _ to_natural _ _ m.elapsed_ms refl (L.natural_back m.elapsed_ms),
          read_field_back _ to_natural _ _ m.cooldown_ms refl (L.natural_back m.cooldown_ms),
        )
        refl

  pub snapshot_back : (s : BoardSnapshot) → read_snapshot L (snapshot_json L s) ≡ some s
  unfolding read_snapshot snapshot_json string_eq
  snapshot_back s =
      rw
        (
          read_field_back _ to_natural _ _ s.width refl (L.natural_back s.width),
          read_field_back _ to_natural _ _ s.height refl (L.natural_back s.height),
          read_field_back _ (read_list L (read_piece L)) _ _ s.pieces refl
              (read_list_back (piece_json L) (read_piece L) piece_back s.pieces),
        )
        refl
