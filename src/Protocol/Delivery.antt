-- ===== src/Protocol/Delivery.antt =====
-- A client's message on its way to the match: what the client writes, and what the server's connection
-- does with that text (server/src/kfc/server/client_session.cpp, which calls json.cpp).
use kung_fu_chess.Prelude.{
  ℕ, ◌≤◌, ◌<◌, ◌≡◌, refl, ◌∙◌, Bool, true, false, ltb, leb, ◌==◌, ==_iff, if◌then◌else◌, Option,
  some, List, [], ◌∷◌, ◌++◌, length, Result, ok, Returns, arith,
}
use kung_fu_chess.Model.{PieceColor}
use kung_fu_chess.Server.{
  ClientMessage, login, play, create_room, resign, join_room, move_request, jump_request,
}
use kung_fu_chess.Server.Audience.{Name}
use kung_fu_chess.Server.MatchScheduler.{MatchScheduler, wake}
use kung_fu_chess.Server.Match.{Match, wakes, enqueue, max_queued_commands}
use kung_fu_chess.Server.Rooms.{
  Room, RoomManager, Place, change, change_match, change_room, with_scheduler, run_hook, queue_in,
  enqueue_for,
}
use kung_fu_chess.Server.ClientSession.{
  ClientSession, Services, AuthOutcome, Incoming, Handled, on_text, count_message, handle_decoded,
  handle, handle_gameplay, play_in, max_messages_per_second,
}
use kung_fu_chess.Protocol.Library.{JsonLibrary}
use kung_fu_chess.Protocol.Values.{longest_message}
use kung_fu_chess.Protocol.Client.{encode_client, decode_client_message}
use kung_fu_chess.Protocol.RoundTrip.{decode-encode_client}

-- What the user store, the generator of room ids and the directory answer, should they be asked.
pub record Answers : Type 0 where
  pub auth : AuthOutcome
  pub room_key : Name
  pub owner : Option Name

-- on_text of a text: its size, and what it decodes to.
unfoldable pub receive :
    JsonLibrary → List ℕ → Answers → ℕ → ClientSession → Services → Result Handled
receive L text a now s v =
    on_text
      (record {
        size = length text;
        decoded = decode_client_message L text;
        auth = a.auth;
        room_key = a.room_key;
        owner = a.owner;
      })
      now s v

-- What a player does in a match.
abbrev pub IsPlay : ClientMessage → Type 0
IsPlay (login name password) = ⊥
IsPlay play = ⊥
IsPlay create_room = ⊥
IsPlay (join_room name) = ⊥
IsPlay (move_request source destination) = Unit
IsPlay (jump_request cell) = Unit
IsPlay resign = Unit

-- The worker that owns the room is woken if the room's match has the hook for it.
abbrev pub woken : ℕ → Room → Option MatchScheduler → Option MatchScheduler
woken id r scheduler = if r.match.has_wake_hook then change (wake id) scheduler else scheduler

-- The room's match has the message at the end of its queue, under the colour of the place; nothing else of the
-- room and no other room has changed, and the connection has counted one message. Of all the rest that the
-- handling may reach only the scheduler has changed, by the wake.
pub record Delivers (m : ClientMessage) (p : Place) (r : Room) (counted : ClientSession)
    (v : Services) (h : Handled) : Type 0 where
  pub session : h.1 ≡ counted
  pub queued :
      h.2.rooms.rooms p.room
      ≡ some (record r { match = record r.match { queue = r.match.queue ++ (p.color, m) ∷ [] } })
  pub others : (id : ℕ) → (id == p.room) ≡ false → h.2.rooms.rooms id ≡ v.rooms.rooms id
  pub rest : h.2 ≡ record v {
    rooms = record v.rooms {
      rooms = h.2.rooms.rooms;
      scheduler = woken p.room r v.rooms.scheduler;
    };
  }

enqueue_space :
    (from : PieceColor) (m : ClientMessage) (k : Match)
    → length k.queue < max_queued_commands
    → enqueue from m k ≡ (
      (if k.has_wake_hook then wakes ∷ [] else []),
      record k { queue = k.queue ++ (from, m) ∷ [] },
    )
unfolding enqueue
enqueue_space from m k x =
    let space : leb max_queued_commands (length k.queue) ≡ false = ground (arith, x) in
    rw space refl

-- The hook of a command that was queued, over rooms that are changed already.
hooked_rest :
    (id : ℕ) (hook : Bool) (f : Room → Room) (m : RoomManager)
    → run_hook id (if hook then wakes ∷ [] else []) (change_room id f m) ≡ record m {
      rooms = (change_room id f m).rooms;
      scheduler = if hook then change (wake id) m.scheduler else m.scheduler;
    }
unfolding run_hook with_scheduler change_room
hooked_rest id true f m = refl
hooked_rest id false f m = refl

-- A room's match takes the message, when its queue has space.
queue_in-Delivers :
    (m : ClientMessage) (p : Place) (r : Room) (s : ClientSession) (v : Services)
    → v.rooms.rooms p.room ≡ some r
    → length r.match.queue < max_queued_commands
    → Delivers m p r s v (
      (queue_in p.room p.color m (some r) v.rooms).0,
      s,
      record v { rooms = (queue_in p.room p.color m (some r) v.rooms).1 },
    )
unfolding queue_in change_room
queue_in-Delivers m p r s v e x =
    let f = change_match (record r.match { queue = r.match.queue ++ (p.color, m) ∷ [] }) in
    let put = hooked_rest p.room r.match.has_wake_hook f v.rooms in
    rw (enqueue_space p.color m r.match x) (record {
      session = refl;
      queued = rw (put, (==_iff p.room p.room).1 refl, e) refl;
      others = λ id n. rw (put, n) refl;
      rest = rw put refl;
    })

play_in-Delivers :
    (m : ClientMessage) (p : Place) (r : Room) (s : ClientSession) (v : Services)
    → s.seat ≡ some p
    → p.spectator ≡ false
    → v.rooms.rooms p.room ≡ some r
    → length r.match.queue < max_queued_commands
    → Delivers m p r s v (handle_gameplay m s v)
unfolding handle_gameplay play_in enqueue_for
play_in-Delivers m p r s v seat plays e x = simp (seat, plays, e) (queue_in-Delivers m p r s v e x)

count_message_seat : (now : ℕ) (s : ClientSession) → (count_message now s).seat ≡ s.seat
unfolding count_message
count_message_seat now s = ground arith

handles_play :
    (m : ClientMessage) (t : Incoming) (now : ℕ) (s : ClientSession) (v : Services)
    → IsPlay m
    → handle m t now s v ≡ ok (handle_gameplay m s v)
unfolding handle
handles_play (move_request a b) t now s v h = refl
handles_play (jump_request a) t now s v h = refl
handles_play resign t now s v h = refl
handles_play (login name password) t now s v h = absurd h
handles_play play t now s v h = absurd h
handles_play create_room t now s v h = absurd h
handles_play (join_room name) t now s v h = absurd h

on_text_plays :
    (m : ClientMessage) (t : Incoming) (now : ℕ) (s : ClientSession) (v : Services)
    → IsPlay m
    → t.decoded ≡ some m
    → t.size ≤ longest_message
    → (count_message now s).messages_in_window ≤ max_messages_per_second
    → on_text t now s v ≡ ok (handle_gameplay m (count_message now s) v)
unfolding on_text handle_decoded
on_text_plays m t now s v is_play read x often =
    let short : ltb longest_message t.size ≡ false = ground (arith, x) in
    let seldom : ltb max_messages_per_second (count_message now s).messages_in_window ≡ false =
      ground (arith, often) in
    simp (short, seldom, read, handles_play m t now (count_message now s) v is_play)

-- A move, a jump or a resignation that a seated player's client writes, in a text of the permitted size, and within the
-- permitted number of messages: the handling of the text returns, and has put that message at the end of the
-- queue of the match of the player's room, under the player's own colour, if the queue has space. Of the services
-- nothing else changes but the scheduler, which wakes the worker of the room if the match has the hook for it, and
-- of the session only the count of its messages.
pub receive-Delivers :
    (L : JsonLibrary) (m : ClientMessage) (text : List ℕ) (a : Answers) (now : ℕ)
    (s : ClientSession) (v : Services) (p : Place) (r : Room)
    → IsPlay m
    → encode_client L m ≡ some text
    → length text ≤ longest_message
    → (count_message now s).messages_in_window ≤ max_messages_per_second
    → s.seat ≡ some p
    → p.spectator ≡ false
    → v.rooms.rooms p.room ≡ some r
    → length r.match.queue < max_queued_commands
    → Returns (Delivers m p r (count_message now s) v) (receive L text a now s v)
unfolding receive
receive-Delivers L m text a now s v p r is_play e x often seat plays here space = (
  handle_gameplay m (count_message now s) v,
  on_text_plays m _ now s v is_play (decode-encode_client L m text e x) x often,
  play_in-Delivers m p r (count_message now s) v (count_message_seat now s ∙ seat) plays here space,
)
