-- ===== src/Server/ClientSession/Handling.antt =====
-- client_session.cpp: what a text message does, and the end of a connection. Logging and the metrics are
-- left out.
use kung_fu_chess.Prelude.{
  has_value, ℕ, ◌+◌, Bool, true, not, ◌||◌, ltb, leb, if◌then◌else◌, Option, none, some, List, [],
  ◌∷◌, ◌++◌, Result, ok, ◌>>=◌,
}
use kung_fu_chess.Server.Audience.{Name}
use kung_fu_chess.Server.Messages.{
  ClientMessage, login, play, create_room, join_room, login_failed, join_failed, join_redirect,
}
use kung_fu_chess.Server.RateLimiter.{RateLimiter, allow}
use kung_fu_chess.Server.SessionRegistry.{SessionRegistry, Lease, claim, destroy}
use kung_fu_chess.Server.Rooms.{
  RoomManager, Place, RoomEffect, Outcome, seated, failed, redirected, JoinReason, no_such_room,
  Guest, join_any, create_named, enqueue_for, disconnect,
}
use kung_fu_chess.Server.Rooms
use kung_fu_chess.Server.ClientSession.Defs.{
  AuthedUser, ClientSession, Services, AuthOutcome, Incoming, Handled, already_logged_in,
  rate_limited_text, reason_text, says, drop,
}

abbrev pub authenticated : ClientSession → Bool
authenticated s = has_value s.pending || has_value s.seat

-- No limiter lets everything through.
unfoldable pub ask_limiter : Option RateLimiter → Name → ℕ → Bool × Option RateLimiter
unfolding allow
ask_limiter none key now = (true, none)
ask_limiter (some l) key now = let (answer, after) = allow key now l in (answer, some after)

-- The lease that an optional lets go of.
abbrev pub let_lease_go : Option Lease → SessionRegistry → SessionRegistry
let_lease_go none r = r
let_lease_go (some l) r = destroy l r

unfoldable pub log_in :
    Name → ℕ → Option Lease × SessionRegistry → ClientSession → Services → Result Handled
unfolding drop destroy
log_in name rating (none, sessions) s v =
    drop (says (login_failed already_logged_in) s ∷ []) s (record v { sessions = sessions })
log_in name rating (some lease, sessions) s v = ok (
  [],
  record s {
    username_lease = some lease;
    pending = some (record { username = name; rating = rating });
  },
  record v { sessions = let_lease_go s.username_lease sessions },
)

unfoldable pub handle_login : Name → AuthOutcome → ℕ → ClientSession → Services → Result Handled
unfolding ask_limiter drop log_in claim
handle_login name auth now s v =
    let (allowed, limiter) = ask_limiter v.auth_limiter s.remote_ip now in
    let asked = record v { auth_limiter = limiter } in
    if authenticated s
    then ok ([], s, v)
    else if not allowed
    then drop (says (login_failed rate_limited_text) s ∷ []) s asked
    else if not auth.is_ok
    then drop (says (login_failed auth.reason) s ∷ []) s asked
    else log_in name auth.rating (claim name v.sessions) s asked

abbrev pub guest_of : AuthedUser → ClientSession → Guest
guest_of user s = record {
  username = user.username;
  rating = user.rating;
  send = s.send;
  close = s.close;
}

-- The name of a room may not be empty; any other message is not a request for a seat.
unfoldable pub seat_for :
    ClientMessage
    → Guest
    → Incoming
    → RoomManager
    → Result (Outcome × List RoomEffect × RoomManager)
unfolding join_any create_named Rooms.join_room
seat_for play g t m = join_any g m
seat_for create_room g t m = ok (create_named t.room_key g m)
seat_for (join_room []) g t m = ok (failed (some no_such_room), [], m)
seat_for (join_room (c ∷ cs)) g t m = ok (Rooms.join_room (c ∷ cs) t.owner g m)
seat_for _ g t m = ok (failed none, [], m)

abbrev pub failure_text : Option JoinReason → Name
failure_text none = reason_text no_such_room
failure_text (some reason) = reason_text reason

unfoldable pub take_seat :
    Outcome × List RoomEffect × RoomManager → ClientSession → Services → Result Handled
unfolding drop
take_seat (seated p, effects, m) s v =
    ok (effects, record s { seat = some p }, record v { rooms = m })
take_seat (redirected (c ∷ cs), effects, m) s v =
    drop (effects ++ says (join_redirect (c ∷ cs)) s ∷ []) s (record v { rooms = m })
take_seat (redirected [], effects, m) s v =
    drop (effects ++ says (join_failed (failure_text none)) s ∷ []) s (record v { rooms = m })
take_seat (failed reason, effects, m) s v =
    drop (effects ++ says (join_failed (failure_text reason)) s ∷ []) s (record v { rooms = m })

unfoldable pub ask_seat :
    ClientMessage → Incoming → Option AuthedUser → ℕ → ClientSession → Services → Result Handled
unfolding ask_limiter drop seat_for take_seat
ask_seat message t none now s v = ok ([], s, v)
ask_seat message t (some user) now s v =
    let (allowed, limiter) = ask_limiter v.seat_limiter s.remote_ip now in
    let asked = record v { seat_limiter = limiter } in
    if has_value s.seat
    then ok ([], s, v)
    else if not allowed
    then drop (says (join_failed rate_limited_text) s ∷ []) s asked
    else seat_for message (guest_of user s) t v.rooms >>= λ r. take_seat r s asked

unfoldable pub handle_seating :
    ClientMessage → Incoming → ℕ → ClientSession → Services → Result Handled
unfolding ask_seat
handle_seating message t now s v = ask_seat message t s.pending now s v

unfoldable pub play_in : ClientMessage → Option Place → ClientSession → Services → Handled
unfolding enqueue_for
play_in message none s v = ([], s, v)
play_in message (some p) s v =
    let (effects, m) = enqueue_for p.room p.color message v.rooms in
    if p.spectator then ([], s, v) else (effects, s, record v { rooms = m })

unfoldable pub handle_gameplay : ClientMessage → ClientSession → Services → Handled
unfolding play_in
handle_gameplay message s v = play_in message s.seat s v

unfoldable pub handle : ClientMessage → Incoming → ℕ → ClientSession → Services → Result Handled
unfolding handle_login handle_seating handle_gameplay
handle (login name password) t now s v = handle_login name t.auth now s v
handle play t now s v = handle_seating play t now s v
handle create_room t now s v = handle_seating create_room t now s v
handle (join_room key) t now s v = handle_seating (join_room key) t now s v
handle message t now s v = ok (handle_gameplay message s v)

unfoldable pub handle_decoded :
    Option ClientMessage → Incoming → ℕ → ClientSession → Services → Result Handled
unfolding handle
handle_decoded none t now s v = ok ([], s, v)
handle_decoded (some message) t now s v = handle message t now s v

abbrev pub max_message_bytes : ℕ
max_message_bytes = 1048576

abbrev pub max_messages_per_second : ℕ
max_messages_per_second = 50

-- The window of one second that counts the messages.
unfoldable pub count_message : ℕ → ClientSession → ClientSession
count_message now s =
    if leb (s.rate_window_start + 1000000000) now
    then record s { rate_window_start = now; messages_in_window = 1 }
    else record s { messages_in_window = s.messages_in_window + 1 }

unfoldable pub on_text : Incoming → ℕ → ClientSession → Services → Result Handled
unfolding drop count_message handle_decoded
on_text t now s v =
    let counted = count_message now s in
    if ltb max_message_bytes t.size
    then drop [] s v
    else if ltb max_messages_per_second counted.messages_in_window
    then drop [] counted v
    else handle_decoded t.decoded t now counted v

-- The seat's room is told, and the lease ends.
unfoldable pub leave_seat : Option Place → RoomManager → List RoomEffect × RoomManager
unfolding disconnect
leave_seat none m = ([], m)
leave_seat (some p) m = disconnect p m

unfoldable pub on_close : ClientSession → Services → Handled
unfolding leave_seat destroy
on_close s v =
    let (effects, m) = leave_seat s.seat v.rooms in
    (
      effects,
      record s { username_lease = none },
      record v { rooms = m; sessions = let_lease_go s.username_lease v.sessions },
    )
