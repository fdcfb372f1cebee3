-- ===== src/Tests/WireTests.antt =====
-- Messages as text, and what the log gets of one.
use kung_fu_chess.Prelude.{
  ◌==◌, if◌then◌else◌, Returns, ℕ, ◌≤◌, pos, ◌≡◌, refl, true, false, none, some, List, [], ◌∷◌,
  ◌++◌, length, arith,
}
use kung_fu_chess.Model.{Piece, white, black, pawn, idle}
use kung_fu_chess.RealTime.{move, default_factory}
use kung_fu_chess.Server.{ClientMessage, move_request, ServerMessage, welcome}
use kung_fu_chess.Io.{Text}
use kung_fu_chess.Protocol.{
  encode_server, server_json, decode_server_message, encode_client, decode_client_message, key,
  redact_for_log, find_key, client_json, envelope, position_json, longest_message,
}
use kung_fu_chess.Protocol.RoundTrip.{decode-encode_client}
use kung_fu_chess.Protocol.HostRoundTrip.{decode-encode_server}
use kung_fu_chess.Protocol.Hiding.{
  EndsInFirst, is_quoted, value_text, starred, redact_for_log-Hides,
}
use kung_fu_chess.Protocol.Delivery.{Answers, receive, Delivers, receive-Delivers}
use kung_fu_chess.Server.Match.{new_match}
use kung_fu_chess.Server.Rooms.{Room, Place}
use kung_fu_chess.Server.ClientSession.{ClientSession, Services, count_message}
use kung_fu_chess.Tests.Fixtures.{rooks}
use kung_fu_chess.Tests.RoomTests.{lobby}
use kung_fu_chess.Tests.SmallJson.{small_json}

abbrev opening : ClientMessage
opening = move_request (record { row = pos 6; col = pos 4 }) (record { row = pos 4; col = pos 4 })

opening_text : List ℕ
unfolding client_json envelope position_json
opening_text = client_json small_json opening

opening_fits : length opening_text ≤ longest_message
unfolding opening_text
opening_fits = ground arith

opening_written : encode_client small_json opening ≡ some opening_text
unfolding encode_client opening_text
opening_written = refl

decode-encode_client_example : decode_client_message small_json opening_text ≡ some opening
decode-encode_client_example =
    decode-encode_client small_json opening opening_text opening_written opening_fits

abbrev pawn_there : Piece
pawn_there = record {
  id = 5;
  color = black;
  kind = pawn;
  cell = record { row = pos 1; col = pos 0 };
  state = idle;
  has_moved = true;
}

-- A spectator comes when one pawn has been taken.
abbrev late : ServerMessage
late = welcome (record {
  assigned_color = white;
  board = record { width = 2; height = 2; pieces = pawn_there ∷ [] };
  spectator = true;
  room = 114 ∷ [];
  history =
      record {
        moved_piece = pawn_there;
        source = record { row = pos 0; col = pos 1 };
        destination = record { row = pos 1; col = pos 0 };
        captured_piece = some pawn_there;
        kind = move;
        was_promotion = false;
        arrived_at_ms = 900;
      }
      ∷ [];
  revision = 3;
  white_username = 97 ∷ [];
  black_username = 98 ∷ [];
  white_rating = 1200;
  black_rating = 1250;
})

late_text : List ℕ
unfolding server_json
late_text = server_json small_json late

late_fits : length late_text ≤ longest_message
unfolding late_text
late_fits = ground arith

late_written : encode_server small_json late ≡ some late_text
unfolding encode_server late_text
late_written = refl

decode-encode_server_example : decode_server_message small_json late_text ≡ some late
decode-encode_server_example = decode-encode_server small_json late late_text late_written late_fits

-- Ann plays White in a room of two.
abbrev court_room : Room
court_room = record {
  match = new_match rooks default_factory true 20000 3000 [];
  seats_taken = 2;
  connected = 2;
  waiting_rating = 0;
  name = [];
}

abbrev court : Services
court = record {
  rooms = record lobby { rooms = λ id. if id == 1 then some court_room else none };
  sessions = record { live = [] };
  auth_limiter = none;
  seat_limiter = none;
}

abbrev ann_place : Place
ann_place = record { room = 1; color = white; spectator = false; watcher = 0 }

abbrev ann_plays : ClientSession
ann_plays = record {
  send = 1;
  close = some 1;
  remote_ip = 49 ∷ [];
  username_lease = none;
  pending = none;
  seat = some ann_place;
  rate_window_start = 0;
  messages_in_window = 49;
}

abbrev no_answers : Answers
no_answers = record {
  auth = record { is_ok = false; rating = 0; reason = [] };
  room_key = [];
  owner = none;
}

receive-Delivers_example :
    Returns
      (Delivers opening ann_place court_room (count_message 5 ann_plays) court)
      (receive small_json opening_text no_answers 5 ann_plays court)
unfolding new_match count_message
receive-Delivers_example =
    receive-Delivers small_json opening opening_text no_answers 5 ann_plays court ann_place
      court_room tt opening_written opening_fits (omega arith) refl refl refl (omega arith)

-- An opening brace; then a, an escaped quote, b.
abbrev opened : Text
opened = 123 ∷ []

abbrev secret : Text
secret = 97 ∷ 92 ∷ 34 ∷ 98 ∷ []

opened_first : EndsInFirst opened
unfolding find_key
opened_first = refl

secret_quoted : is_quoted secret ≡ true
unfolding is_quoted
secret_quoted = refl

redact_for_log-Hides_example :
    redact_for_log ((opened ++ key) ++ value_text [] (32 ∷ []) secret (125 ∷ []))
    ≡ opened ++ (key ++ (starred [] (32 ∷ []) ++ redact_for_log (34 ∷ 125 ∷ [])))
redact_for_log-Hides_example =
    redact_for_log-Hides opened [] (32 ∷ []) secret (125 ∷ []) opened_first tt (refl, tt)
      secret_quoted

-- A number in place of the string, and a "password" that is not a key.
number_hidden :
    redact_for_log (key ++ (58 ∷ 49 ∷ 50 ∷ 44 ∷ key)) ≡ key ++ (58 ∷ 42 ∷ 42 ∷ 42 ∷ 44 ∷ key)
unfolding redact_for_log
number_hidden = refl
