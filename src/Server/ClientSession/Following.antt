-- ===== src/Server/ClientSession/Following.antt =====
-- The order of a connection, and what a text may do to it and to the rooms.
use kung_fu_chess.Prelude.{◌≡◌, ok, ◌⊎◌, true, false, Option, none, some, List}
use kung_fu_chess.Server.Messages.{
  ClientMessage, login, play, create_room, resign, join_room, move_request, jump_request,
}
use kung_fu_chess.Server.SessionRegistry.{Lease}
use kung_fu_chess.Server.Rooms.{
  RoomManager, Place, RoomEffect, Outcome, seated, failed, redirected, enqueue_for,
}
use kung_fu_chess.Server.ClientSession.Defs.{AuthedUser, ClientSession, Services, Incoming, Handled}
use kung_fu_chess.Server.ClientSession.Handling.{guest_of, seat_for}

-- A user holds the lease of the name.
abbrev pub Leased : Option AuthedUser → Option Lease → Type 0
Leased none lease = Unit
Leased (some user) none = ⊥
Leased (some user) (some lease) = (lease.has_registry ≡ true) × (lease.username ≡ user.username)

abbrev pub SeatAfter : Option AuthedUser → Option Place → Type 0
SeatAfter user none = Unit
SeatAfter none (some place) = ⊥
SeatAfter (some user) (some place) = Unit

abbrev pub InOrder : ClientSession → Type 0
InOrder s = SeatAfter s.pending s.seat × Leased s.pending s.username_lease

-- The messages that ask for a seat.
abbrev pub AsksSeat : ClientMessage → Type 0
AsksSeat (login name password) = ⊥
AsksSeat play = Unit
AsksSeat create_room = Unit
AsksSeat (join_room key) = Unit
AsksSeat (move_request source destination) = ⊥
AsksSeat (jump_request cell) = ⊥
AsksSeat resign = ⊥

-- The messages that command a match.
abbrev pub IsCommand : ClientMessage → Type 0
IsCommand (login name password) = ⊥
IsCommand play = ⊥
IsCommand create_room = ⊥
IsCommand (join_room key) = ⊥
IsCommand (move_request source destination) = Unit
IsCommand (jump_request cell) = Unit
IsCommand resign = Unit

-- The seat that an outcome gives to a connection that has none.
abbrev pub seat_given : Outcome → Option Place
seat_given (seated p) = some p
seat_given (redirected url) = none
seat_given (failed reason) = none

-- The text asks for a seat, for a user who is logged in and has none; the rooms are what the search for a
-- seat for that user has left, and the connection has the seat that was found.
abbrev pub Seats : Incoming → ClientSession → Services → ClientSession → Services → Type 0
Seats t s v after w =
    (user : AuthedUser) × (message : ClientMessage) × (r : Outcome × List RoomEffect × RoomManager)
    × (s.pending ≡ some user)
    × (s.seat ≡ none)
    × (t.decoded ≡ some message)
    × AsksSeat message
    × (seat_for message (guest_of user s) t v.rooms ≡ ok r)
    × (w.rooms ≡ r.2)
    × (after.seat ≡ seat_given r.0)

-- The text commands, and the command is queued for the seat of the player who sent it.
abbrev pub Plays : Incoming → ClientSession → Services → ClientSession → Services → Type 0
Plays t s v after w =
    (p : Place) × (message : ClientMessage) × (s.seat ≡ some p)
    × (p.spectator ≡ false)
    × (t.decoded ≡ some message)
    × IsCommand message
    × (w.rooms ≡ (enqueue_for p.room p.color message v.rooms).1)
    × (after.seat ≡ s.seat)

-- What a text may do to the rooms and to the seat: nothing; seat a user who has no seat yet; or queue a
-- command of a player, on the player's own seat.
abbrev pub RoomsTouched : Incoming → ClientSession → Services → ClientSession → Services → Type 0
RoomsTouched t s v after w =
    (w.rooms ≡ v.rooms) × (after.seat ≡ s.seat) ⊎ Seats t s v after w ⊎ Plays t s v after w

pub record Follows (t : Incoming) (s : ClientSession) (v : Services) (after : ClientSession)
    (w : Services) : Type 0 where
  pub same_user : (s.pending ≡ none) ⊎ (after.pending ≡ s.pending)
  pub same_seat : (s.seat ≡ none) ⊎ (after.seat ≡ s.seat)
  pub in_order : InOrder after
  pub touched : RoomsTouched t s v after w

abbrev pub Then : Incoming → ClientSession → Services → Handled → Type 0
Then t s v (effects, after, w) = Follows t s v after w
