-- ===== src/Protocol/Host.antt =====
-- protocol/src/kfc/protocol/json.cpp: the messages of a server, written and read.
use kung_fu_chess.Prelude.{
  string_eq, ℕ, pos, false, if◌then◌else◌, Option, none, some, List, [], ◌∷◌, map,
}
use kung_fu_chess.Model.{PieceColor}
use kung_fu_chess.Server.{
  Welcome, ServerMessage, welcome, motion_started, board_update, move_rejected, game_ended,
  opponent_disconnected, match_start, join_failed, join_redirect, login_failed,
  opponent_reconnected,
}
use kung_fu_chess.Server.Audience.{Name}
use kung_fu_chess.Protocol.Library.{JsonLibrary}
use kung_fu_chess.Protocol.Values.{
  then_read, read_field, read_text, read_list, read_named, read_present, color_name, color_names,
  arrival_json, read_arrival, motion_json, read_motion, snapshot_json, read_snapshot, envelope,
  parse_envelope,
}
use kung_fu_chess.Protocol.Keys.{
  type_key, payload_key, assigned_color_key, board_key, spectator_key, room_key, history_key,
  revision_key, white_username_key, black_username_key, white_rating_key, black_rating_key,
  motion_key, arrival_events_key, reason_key, winner_key, seconds_key, url_key, welcome_type,
  motion_started_type, board_update_type, move_rejected_type, game_over_type,
  opponent_disconnected_type, match_start_type, join_failed_type, join_redirect_type,
  login_failed_type, opponent_reconnected_type,
}

-- What is read of a value, or the default when it is absent.
abbrev pub or_default : {J A : Type 0} → (J → Option A) → A → Option J → Option A
or_default read default none = some default
or_default read default (some j) = read j

module _ (L : JsonLibrary) where
  open L use {
    Json, of_object, of_text, of_int, of_bool, of_array, is_object, find_field, to_text, to_natural,
    to_bool, dump,
  }

  -- j.value(key, default), which throws on what is not an object.
  abbrev pub read_or : {A : Type 0} → Name → (Json → Option A) → A → Json → Option A
  read_or key read default j =
      if is_object j then or_default read default (find_field key j) else none

  unfoldable pub winner_field : Option PieceColor → List (Name × Json)
  unfolding color_name
  winner_field none = []
  winner_field (some c) = (winner_key, of_text (color_name c)) ∷ []

  abbrev reason_json : Name → Json
  reason_json reason = of_object ((reason_key, of_text reason) ∷ [])

  unfoldable pub welcome_json : Welcome → Json
  unfolding snapshot_json arrival_json color_name
  welcome_json w = of_object (
      (assigned_color_key, of_text (color_name w.assigned_color))
      ∷ (board_key, snapshot_json L w.board)
      ∷ (spectator_key, of_bool w.spectator)
      ∷ (room_key, of_text w.room)
      ∷ (history_key, of_array (map (arrival_json L) w.history))
      ∷ (revision_key, of_int (pos w.revision))
      ∷ (white_username_key, of_text w.white_username)
      ∷ (black_username_key, of_text w.black_username)
      ∷ (white_rating_key, of_int (pos w.white_rating))
      ∷ (black_rating_key, of_int (pos w.black_rating))
      ∷ [])

  unfoldable pub server_json : ServerMessage → Json
  unfolding envelope welcome_json motion_json arrival_json winner_field
  server_json (welcome w) = envelope L welcome_type (welcome_json w)
  server_json (motion_started m) =
      envelope L motion_started_type (of_object ((motion_key, motion_json L m) ∷ []))
  server_json (board_update events revision) = envelope L board_update_type (
      of_object (
        (arrival_events_key, of_array (map (arrival_json L) events))
        ∷ (revision_key, of_int (pos revision))
        ∷ []))
  server_json (move_rejected reason) = envelope L move_rejected_type (reason_json reason)
  server_json (game_ended winner) = envelope L game_over_type (of_object (winner_field winner))
  server_json (opponent_disconnected seconds) =
      envelope L opponent_disconnected_type (of_object ((seconds_key, of_int (pos seconds)) ∷ []))
  server_json (match_start white black white_rating black_rating) = envelope L match_start_type (
      of_object (
        (white_username_key, of_text white)
        ∷ (black_username_key, of_text black)
        ∷ (white_rating_key, of_int (pos white_rating))
        ∷ (black_rating_key, of_int (pos black_rating))
        ∷ []))
  server_json (join_failed reason) = envelope L join_failed_type (reason_json reason)
  server_json (join_redirect url) =
      envelope L join_redirect_type (of_object ((url_key, of_text url) ∷ []))
  server_json (login_failed reason) = envelope L login_failed_type (reason_json reason)
  server_json opponent_reconnected = envelope L opponent_reconnected_type (of_object [])

  unfoldable pub encode_server : ServerMessage → Option (List ℕ)
  unfolding server_json
  encode_server message = dump (server_json message)

  unfoldable pub read_welcome : Json → Option ServerMessage
  unfolding read_snapshot read_arrival
  read_welcome j =
      then_read (read_field L assigned_color_key (read_named L color_names) j) (λ color.
        then_read (read_field L board_key (read_snapshot L) j) (λ board.
          then_read (read_or spectator_key to_bool false j) (λ spectator.
            then_read (read_or room_key to_text [] j) (λ room.
              then_read (or_default (read_list L (read_arrival L)) [] (find_field history_key j))
                (λ history. then_read (read_or revision_key to_natural 0 j) (λ revision.
                  then_read (read_or white_username_key to_text [] j) (λ white_username.
                    then_read (read_or black_username_key to_text [] j) (λ black_username.
                      then_read (read_or white_rating_key to_natural 0 j) (λ white_rating.
                        then_read (read_or black_rating_key to_natural 0 j) (λ black_rating. some (
                          welcome (record {
                            assigned_color = color;
                            board = board;
                            spectator = spectator;
                            room = room;
                            history = history;
                            revision = revision;
                            white_username = white_username;
                            black_username = black_username;
                            white_rating = white_rating;
                            black_rating = black_rating;
                          }))))))))))))

  unfoldable pub read_match_start : Json → Option ServerMessage
  read_match_start j = then_read (read_or white_username_key to_text [] j) (λ white.
      then_read (read_or black_username_key to_text [] j) (λ black.
        then_read (read_or white_rating_key to_natural 0 j) (λ white_rating.
          then_read (read_or black_rating_key to_natural 0 j)
            (λ black_rating. some (match_start white black white_rating black_rating)))))

  unfoldable pub read_server : Name → Json → Option ServerMessage
  unfolding string_eq read_welcome read_motion read_arrival read_match_start
  read_server type j =
      if string_eq type welcome_type
      then read_welcome j
      else if string_eq type motion_started_type
      then then_read (read_field L motion_key (read_motion L) j) (λ m. some (motion_started m))
      else if string_eq type board_update_type
      then then_read (read_field L arrival_events_key (read_list L (read_arrival L)) j) (λ events.
        then_read (read_or revision_key to_natural 0 j) (λ n. some (board_update events n)))
      else if string_eq type move_rejected_type
      then then_read (read_text L reason_key j) (λ reason. some (move_rejected reason))
      else if string_eq type game_over_type
      then then_read (read_present L (read_named L color_names) (find_field winner_key j))
          (λ winner. some (game_ended winner))
      else if string_eq type opponent_disconnected_type
      then then_read (read_field L seconds_key to_natural j) (λ n. some (opponent_disconnected n))
      else if string_eq type match_start_type
      then read_match_start j
      else if string_eq type join_failed_type
      then then_read (read_text L reason_key j) (λ reason. some (join_failed reason))
      else if string_eq type join_redirect_type
      then then_read (read_text L url_key j) (λ url. some (join_redirect url))
      else if string_eq type login_failed_type
      then then_read (read_text L reason_key j) (λ reason. some (login_failed reason))
      else if string_eq type opponent_reconnected_type
      then some opponent_reconnected
      else none

  unfoldable pub decode_server_message : List ℕ → Option ServerMessage
  unfolding parse_envelope read_server
  decode_server_message text = then_read (parse_envelope L text) (λ j.
      then_read (read_text L type_key j)
        (λ type. then_read (find_field payload_key j) (λ payload. read_server type payload)))
