-- ===== src/Protocol/HostRoundTrip.antt =====
-- A server's message that is written as text, and read again.
use kung_fu_chess.Prelude.{string_eq, ℕ, ◌≤◌, ◌≡◌, refl, Option, none, some, List, map, length}
use kung_fu_chess.Model.{PieceColor}
use kung_fu_chess.RealTime.{ArrivalEvent}
use kung_fu_chess.Server.{
  Welcome, ServerMessage, welcome, motion_started, board_update, move_rejected, game_ended,
  opponent_disconnected, match_start, join_failed, join_redirect, login_failed,
  opponent_reconnected,
}
use kung_fu_chess.Server.Audience.{Name}
use kung_fu_chess.Protocol.Library.{JsonLibrary, find_name}
use kung_fu_chess.Protocol.Values.{
  longest_message, read_list, read_named, read_present, color_name, color_names, arrival_json,
  read_arrival, read_motion, read_snapshot,
}
use kung_fu_chess.Protocol.ValuesBack.{
  color_back, read_field_back, read_named_back, read_list_back, arrival_back, motion_back,
  snapshot_back,
}
use kung_fu_chess.Protocol.Host.{
  winner_field, read_or, welcome_json, server_json, encode_server, read_welcome, read_match_start,
  read_server, decode_server_message,
}
use kung_fu_chess.Protocol.RoundTrip.{envelope_back, text_field}
use kung_fu_chess.Protocol.Keys.{history_key, winner_key}

module _ (L : JsonLibrary) where
  open L use {Json, of_object, of_text, of_array, find_field, to_text, to_natural, to_bool}

  read_or_back :
      {A : Type 0} (key : Name) (read : Json → Option A) (default : A) (fields : List (Name × Json))
      (j : Json) (x : A)
      → find_name key fields ≡ some j
      → read j ≡ some x
      → read_or L key read default (of_object fields) ≡ some x
  read_or_back key read default fields j x e r =
      rw (L.is_object_back fields, L.object_back key fields, e) r

  arrivals_back :
      (events : List ArrivalEvent)
      → read_list L (read_arrival L) (of_array (map (arrival_json L) events)) ≡ some events
  arrivals_back events = read_list_back L (arrival_json L) (read_arrival L) (arrival_back L) events

  named_color : (c : PieceColor) → read_named L color_names (of_text (color_name c)) ≡ some c
  named_color c = read_named_back L color_names (color_name c) c (color_back c)

  welcome_back : (w : Welcome) → read_welcome L (welcome_json L w) ≡ some (welcome w)
  unfolding read_welcome welcome_json string_eq
  welcome_back w =
      rw
        (
          read_field_back L _ (read_named L color_names) _ _ w.assigned_color refl
              (named_color w.assigned_color),
          read_field_back L _ (read_snapshot L) _ _ w.board refl (snapshot_back L w.board),
          read_or_back _ to_bool _ _ _ w.spectator refl (L.bool_back w.spectator),
          read_or_back _ to_text _ _ _ w.room refl (L.text_back w.room),
          L.object_back history_key,
          arrivals_back w.history,
          read_or_back _ to_natural _ _ _ w.revision refl (L.natural_back w.revision),
          read_or_back _ to_text _ _ _ w.white_username refl (L.text_back w.white_username),
          read_or_back _ to_text _ _ _ w.black_username refl (L.text_back w.black_username),
          read_or_back _ to_natural _ _ _ w.white_rating refl (L.natural_back w.white_rating),
          read_or_back _ to_natural _ _ _ w.black_rating refl (L.natural_back w.black_rating),
        )
        refl

  winner_back :
      (o : Option PieceColor)
      → read_present L (read_named L color_names) (find_name winner_key (winner_field L o)) ≡ some o
  unfolding winner_field string_eq
  winner_back none = refl
  winner_back (some c) = rw (named_color c) refl

  -- A message that a server writes, and whose text is not too long, is the message that the client reads.
  pub decode-encode_server :
      (m : ServerMessage) (text : List ℕ)
      → encode_server L m ≡ some text
      → length text ≤ longest_message
      → decode_server_message L text ≡ some m
  unfolding encode_server server_json decode_server_message read_server read_match_start string_eq
  decode-encode_server (welcome w) text e x =
      envelope_back L (read_server L) _ _ text _ e x (welcome_back w)
  decode-encode_server (motion_started m) text e x =
      envelope_back L (read_server L) _ _ text _ e x
        (rw (read_field_back L _ (read_motion L) _ _ m refl (motion_back L m)) refl)
  decode-encode_server (board_update events n) text e x =
      envelope_back L (read_server L) _ _ text _ e x (
        rw
          (
            read_field_back L _ (read_list L (read_arrival L)) _ _ events refl
                (arrivals_back events),
            read_or_back _ to_natural _ _ _ n refl (L.natural_back n),
          )
          refl)
  decode-encode_server (move_rejected reason) text e x =
      envelope_back L (read_server L) _ _ text _ e x (rw (text_field L _ reason _ refl) refl)
  decode-encode_server (game_ended winner) text e x =
      envelope_back L (read_server L) _ _ text _ e x
        (rw (L.object_back winner_key, winner_back winner) refl)
  decode-encode_server (opponent_disconnected seconds) text e x =
      envelope_back L (read_server L) _ _ text _ e x
        (rw (read_field_back L _ to_natural _ _ seconds refl (L.natural_back seconds)) refl)
  decode-encode_server (match_start white black white_rating black_rating) text e x =
      envelope_back L (read_server L) _ _ text _ e x (
        rw
          (
            read_or_back _ to_text _ _ _ white refl (L.text_back white),
            read_or_back _ to_text _ _ _ black refl (L.text_back black),
            read_or_back _ to_natural _ _ _ white_rating refl (L.natural_back white_rating),
            read_or_back _ to_natural _ _ _ black_rating refl (L.natural_back black_rating),
          )
          refl)
  decode-encode_server (join_failed reason) text e x =
      envelope_back L (read_server L) _ _ text _ e x (rw (text_field L _ reason _ refl) refl)
  decode-encode_server (join_redirect url) text e x =
      envelope_back L (read_server L) _ _ text _ e x (rw (text_field L _ url _ refl) refl)
  decode-encode_server (login_failed reason) text e x =
      envelope_back L (read_server L) _ _ text _ e x (rw (text_field L _ reason _ refl) refl)
  decode-encode_server opponent_reconnected text e x =
      envelope_back L (read_server L) _ _ text _ e x refl
