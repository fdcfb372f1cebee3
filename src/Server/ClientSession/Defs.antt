-- ===== src/Server/ClientSession/Defs.antt =====
-- client_session.hpp: one connection, what it shares with the others, and what it is told.
use kung_fu_chess.Prelude.{
  ℕ, Bool, Option, none, some, List, [], ◌∷◌, ◌++◌, Result, ok, err, bad_function_call,
}
use kung_fu_chess.Server.Audience.{Name, SendFn, CloseFn}
use kung_fu_chess.Server.Messages.{ClientMessage, ServerMessage}
use kung_fu_chess.Server.Match.{sends, closes}
use kung_fu_chess.Server.RateLimiter.{RateLimiter}
use kung_fu_chess.Server.SessionRegistry.{SessionRegistry, Lease}
use kung_fu_chess.Server.Rooms.{
  RoomManager, Place, RoomEffect, of_match, JoinReason, no_such_room, room_not_active,
  spectator_limit_reached, rate_limited,
}

-- ClientSession::AuthedUser.
pub record AuthedUser : Type 0 where
  pub username : Name
  pub rating : ℕ

-- Times are nanoseconds of the steady clock.
pub record ClientSession : Type 0 where
  pub send : SendFn
  pub close : CloseFn
  pub remote_ip : Name
  pub username_lease : Option Lease
  pub pending : Option AuthedUser
  pub seat : Option Place
  pub rate_window_start : ℕ
  pub messages_in_window : ℕ

unfoldable pub new_session : SendFn → CloseFn → Name → ClientSession
new_session send close ip = record {
  send = send;
  close = close;
  remote_ip = ip;
  username_lease = none;
  pending = none;
  seat = none;
  rate_window_start = 0;
  messages_in_window = 0;
}

-- The objects that the sessions hold references to. A limiter may be absent.
pub record Services : Type 0 where
  pub rooms : RoomManager
  pub sessions : SessionRegistry
  pub auth_limiter : Option RateLimiter
  pub seat_limiter : Option RateLimiter

-- IUserStore::AuthOutcome.
pub record AuthOutcome : Type 0 where
  pub is_ok : Bool
  pub rating : ℕ
  pub reason : Name

-- A text message: its size, what json.cpp decodes it to, and what the user store, the generator of room
-- ids and the directory of rooms answer while it is handled, should they be asked.
pub record Incoming : Type 0 where
  pub size : ℕ
  pub decoded : Option ClientMessage
  pub auth : AuthOutcome
  pub room_key : Name
  pub owner : Option Name

-- messages.hpp: "already_logged_in", and "rate_limited", which the two namespaces share.
abbrev pub already_logged_in : Name
already_logged_in =
    97 ∷ 108 ∷ 114 ∷ 101 ∷ 97 ∷ 100 ∷ 121 ∷ 95 ∷ 108 ∷ 111 ∷ 103 ∷ 103 ∷ 101 ∷ 100 ∷ 95 ∷ 105 ∷ 110
    ∷ []

abbrev pub rate_limited_text : Name
rate_limited_text = 114 ∷ 97 ∷ 116 ∷ 101 ∷ 95 ∷ 108 ∷ 105 ∷ 109 ∷ 105 ∷ 116 ∷ 101 ∷ 100 ∷ []

-- "no_such_room", "room_not_active", "spectator_limit_reached".
abbrev pub reason_text : JoinReason → Name
reason_text no_such_room = 110 ∷ 111 ∷ 95 ∷ 115 ∷ 117 ∷ 99 ∷ 104 ∷ 95 ∷ 114 ∷ 111 ∷ 111 ∷ 109 ∷ []
reason_text room_not_active =
    114 ∷ 111 ∷ 111 ∷ 109 ∷ 95 ∷ 110 ∷ 111 ∷ 116 ∷ 95 ∷ 97 ∷ 99 ∷ 116 ∷ 105 ∷ 118 ∷ 101 ∷ []
reason_text spectator_limit_reached =
    115 ∷ 112 ∷ 101 ∷ 99 ∷ 116 ∷ 97 ∷ 116 ∷ 111 ∷ 114 ∷ 95 ∷ 108 ∷ 105 ∷ 109 ∷ 105 ∷ 116 ∷ 95 ∷ 114
    ∷ 101 ∷ 97 ∷ 99 ∷ 104 ∷ 101 ∷ 100 ∷ []
reason_text rate_limited = rate_limited_text

-- What a handler leaves behind.
abbrev pub Handled : Type 0
Handled = List RoomEffect × ClientSession × Services

abbrev pub says : ServerMessage → ClientSession → RoomEffect
says message s = of_match (sends s.send message)

-- `close_` is called whether or not there is a function in it.
unfoldable pub hang_up : CloseFn → Handled → Result Handled
hang_up none h = err bad_function_call
hang_up (some socket) (said, s, v) = ok (said ++ of_match (closes socket) ∷ [], s, v)

unfoldable pub drop : List RoomEffect → ClientSession → Services → Result Handled
unfolding hang_up
drop said s v = hang_up s.close (said, s, v)
