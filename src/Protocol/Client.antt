-- ===== src/Protocol/Client.antt =====
-- protocol/src/kfc/protocol/json.cpp: the messages of a client, written and read.
use kung_fu_chess.Prelude.{string_eq, ℕ, if◌then◌else◌, Option, none, some, List, [], ◌∷◌}
use kung_fu_chess.Server.{
  ClientMessage, login, play, create_room, resign, join_room, move_request, jump_request,
}
use kung_fu_chess.Server.Audience.{Name}
use kung_fu_chess.Protocol.Library.{JsonLibrary}
use kung_fu_chess.Protocol.Values.{
  then_read, position_json, read_text, position_at, envelope, parse_envelope,
}
use kung_fu_chess.Protocol.Keys.{
  type_key, payload_key, source_key, destination_key, cell_key, username_key, password_key,
  name_key, login_type, move_type, jump_type, resign_type, play_type, create_room_type,
  join_room_type,
}

module _ (L : JsonLibrary) where
  open L use {Json, of_object, of_text, find_field, dump}

  unfoldable pub client_json : ClientMessage → Json
  unfolding envelope position_json
  client_json (login username password) =
      envelope L login_type
        (of_object ((username_key, of_text username) ∷ (password_key, of_text password) ∷ []))
  client_json (move_request source destination) = envelope L move_type (
      of_object (
        (source_key, position_json L source) ∷ (destination_key, position_json L destination) ∷ []))
  client_json (jump_request cell) =
      envelope L jump_type (of_object ((cell_key, position_json L cell) ∷ []))
  client_json resign = envelope L resign_type (of_object [])
  client_json play = envelope L play_type (of_object [])
  client_json create_room = envelope L create_room_type (of_object [])
  client_json (join_room name) =
      envelope L join_room_type (of_object ((name_key, of_text name) ∷ []))

  -- The library throws on a text that it cannot write.
  unfoldable pub encode_client : ClientMessage → Option (List ℕ)
  unfolding client_json
  encode_client message = dump (client_json message)

  unfoldable pub read_client : Name → Json → Option ClientMessage
  unfolding string_eq
  read_client type payload =
      if string_eq type login_type
      then then_read (read_text L username_key payload) (λ username.
        then_read (read_text L password_key payload) (λ password. some (login username password)))
      else if string_eq type move_type
      then then_read (position_at L source_key payload) (λ source.
        then_read (position_at L destination_key payload)
          (λ destination. some (move_request source destination)))
      else if string_eq type jump_type
      then then_read (position_at L cell_key payload) (λ cell. some (jump_request cell))
      else if string_eq type resign_type
      then some resign
      else if string_eq type play_type
      then some play
      else if string_eq type create_room_type
      then some create_room
      else if string_eq type join_room_type
      then then_read (read_text L name_key payload) (λ name. some (join_room name))
      else none

  unfoldable pub decode_client_message : List ℕ → Option ClientMessage
  unfolding parse_envelope read_client
  decode_client_message text = then_read (parse_envelope L text) (λ j.
      then_read (read_text L type_key j)
        (λ type. then_read (find_field payload_key j) (λ payload. read_client type payload)))
