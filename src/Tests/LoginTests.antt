-- ===== src/Tests/LoginTests.antt =====
-- Leases, tokens and connections on small runs.
use kung_fu_chess.Prelude.{
  string_eq, ◌+◌, ◌≡◌, refl, if◌then◌else◌, ltb, true, false, none, some, List, [], ◌∷◌, Result, ok,
  err, arith,
}
use kung_fu_chess.Server.Audience.{seat}
use kung_fu_chess.Server.{play}
use kung_fu_chess.Server.SessionRegistry.{Lease, new_registry, claim, is_live, move_from}
use kung_fu_chess.Server.SessionRegistry.Leases.{
  Exact, Claims, Reach, begins, goes_on, claims, moves, Reach-Claims,
}
use kung_fu_chess.Server.AuthTokens.{issue, username_for, token_lifetime}
use kung_fu_chess.Server.AuthTokens.Lifetime.{
  issues, looks, call_tokens, TokenCall, issue-username_for,
}
use kung_fu_chess.Server.Rooms.{
  new_manager, nearest, closest_waiting_room, consider, around, gap_of, open_room, change_room,
  mark_waiting, unmark_waiting, emplace, erase_entry, reserve_any, reserve_found, settle_any,
  join_any,
}
use kung_fu_chess.Server.ClientSession.{
  ClientSession, Services, Incoming, Handled, on_text, count_message, handle_decoded, handle,
  handle_seating, ask_seat, ask_limiter, seat_for, take_seat,
}
use kung_fu_chess.Server.ClientSession.Order.{on_text-Follows}
use kung_fu_chess.Server.ClientSession.Following.{Follows}
use kung_fu_chess.Tests.RoomTests.{lobby}

abbrev seat_lease : Lease
seat_lease = record { has_registry = true; username = 65 ∷ [] }

-- Ann logs in, and her lease is moved to her connection.
logged_in :
    Reach
      ((move_from seat_lease).0 ∷ (move_from seat_lease).1 ∷ [])
      (record { live = (65 ∷ []) ∷ [] })
unfolding claim is_live
logged_in =
    goes_on
      (goes_on begins
        (claims (65 ∷ []) [] seat_lease new_registry (record { live = (65 ∷ []) ∷ [] }) refl))
      (moves seat_lease [] (record { live = (65 ∷ []) ∷ [] }))

Reach-Claims_example :
    Exact
      ((move_from seat_lease).0 ∷ (move_from seat_lease).1 ∷ [])
      (record { live = (65 ∷ []) ∷ [] })
    × Claims
        (65 ∷ [])
        ((move_from seat_lease).0 ∷ (move_from seat_lease).1 ∷ [])
        (record { live = (65 ∷ []) ∷ [] })
        (claim (65 ∷ []) (record { live = (65 ∷ []) ∷ [] }))
Reach-Claims_example =
    Reach-Claims ((move_from seat_lease).0 ∷ (move_from seat_lease).1 ∷ [])
      (record { live = (65 ∷ []) ∷ [] }) (65 ∷ []) logged_in

abbrev token_calls : List TokenCall
token_calls = looks (1 ∷ []) 10 ∷ issues (2 ∷ []) (66 ∷ []) 20 ∷ looks (3 ∷ []) 30 ∷ []

issue-username_for_example :
    (username_for
      (1 ∷ [])
      86400
      (call_tokens token_calls (issue (1 ∷ []) (65 ∷ []) 5 (λ key. none)))).0
    ≡ (if ltb 86400 (5 + token_lifetime) then some (65 ∷ []) else none)
unfolding string_eq
issue-username_for_example =
    issue-username_for (1 ∷ []) (65 ∷ []) 5 86400 token_calls (λ key. none)
      (omega arith, (refl, (omega arith, tt)))

-- Ann, logged in, asks for a game.
abbrev waiting_ann : ClientSession
waiting_ann = record {
  send = 1;
  close = some 1;
  remote_ip = 49 ∷ [];
  username_lease = some seat_lease;
  pending = some (record { username = 65 ∷ []; rating = 1200 });
  seat = none;
  rate_window_start = 0;
  messages_in_window = 1;
}

abbrev hall : Services
hall = record {
  rooms = lobby;
  sessions = record { live = (65 ∷ []) ∷ [] };
  auth_limiter = none;
  seat_limiter = none;
}

abbrev asks_to_play : Incoming
asks_to_play = record {
  size = 20;
  decoded = some play;
  auth = record { is_ok = false; rating = 0; reason = [] };
  room_key = 51 ∷ [];
  owner = none;
}

abbrev handled : Result Handled → Handled
handled (ok h) = h
handled (err _) = ([], waiting_ann, hall)

on_text-Follows_example :
    Follows asks_to_play waiting_ann hall
      (handled (on_text asks_to_play 5 waiting_ann hall)).1
      (handled (on_text asks_to_play 5 waiting_ann hall)).2
unfolding on_text count_message handle_decoded handle handle_seating ask_seat ask_limiter seat_for
    take_seat new_manager join_any reserve_any reserve_found closest_waiting_room nearest consider
    around gap_of settle_any open_room change_room mark_waiting unmark_waiting emplace erase_entry
    seat
on_text-Follows_example =
    on_text-Follows asks_to_play 5 waiting_ann hall
      (handled (on_text asks_to_play 5 waiting_ann hall)) (tt, (refl, refl)) refl
