-- ===== src/Server/ClientSession/Order.antt =====
-- The order that a connection keeps: it logs in, takes one seat, and plays on that seat alone.
use kung_fu_chess.Prelude.{ℕ, ◌≡◌, refl, inl, inr, ltb, Bool-cases, [], ok, arith}
use kung_fu_chess.Server.Match.Seating.{IfOk}
use kung_fu_chess.Server.ClientSession.Defs.{ClientSession, Services, Incoming, Handled}
use kung_fu_chess.Server.ClientSession.Handling.{
  max_message_bytes, max_messages_per_second, count_message, on_text,
}
use kung_fu_chess.Server.ClientSession.Following.{InOrder, Follows, Then}
use kung_fu_chess.Server.ClientSession.Steps.{drop-Then, same, handle_decoded-Then}

-- Counting a message changes neither the user nor the seat nor the socket.
counted_same :
    (now : ℕ) (s : ClientSession)
    → ((count_message now s).pending ≡ s.pending)
      × ((count_message now s).seat ≡ s.seat)
      × ((count_message now s).username_lease ≡ s.username_lease)
      × ((count_message now s).send ≡ s.send)
      × ((count_message now s).close ≡ s.close)
unfolding count_message
counted_same now s = ground arith

as_before :
    (t : Incoming) (s k : ClientSession) (v : Services) (h : Handled)
    → k.pending ≡ s.pending
    → k.seat ≡ s.seat
    → k.send ≡ s.send
    → k.close ≡ s.close
    → Then t k v h
    → Then t s v h
as_before t s k v h p q sends closes f = record {
  same_user = rw (← p) f.same_user;
  same_seat = rw (← q) f.same_seat;
  in_order = f.in_order;
  touched = rw (← p, ← q, ← sends, ← closes) f.touched;
}

-- A connection that has kept the order, and any text: if its handling returns, the user that was logged in and the
-- seat that was taken are still the same; whoever is seated is logged in, and whoever is logged in holds the
-- lease of that name. The rooms and the seat are as they were; or the text is a request for a seat by a user
-- who is logged in without one, the rooms are as the search for that user's seat leaves them, and the
-- connection has the seat that it found; or the text is a player's move, jump or resignation, the rooms differ
-- by that command in the queue of the player's own seat, and the seat is kept.
pub on_text-Follows :
    (t : Incoming) (now : ℕ) (s : ClientSession) (v : Services) (h : Handled)
    → InOrder s
    → on_text t now s v ≡ ok h
    → Follows t s v h.1 h.2
unfolding on_text
on_text-Follows t now s v h o = whole h
  where
    k : ClientSession
    k = count_message now s

    kept :
        (k.pending ≡ s.pending)
        × (k.seat ≡ s.seat)
        × (k.username_lease ≡ s.username_lease)
        × (k.send ≡ s.send)
        × (k.close ≡ s.close)
    kept = counted_same now s

    ordered : InOrder k
    ordered = rw (kept.0, kept.1, kept.2) o

    whole : IfOk (Then t s v) (on_text t now s v)
    whole =
        unfold on_text in
        elim (Bool-cases (ltb max_message_bytes t.size)) [
          | inl long ↦ simp long (drop-Then t s v [] s v (same t s v o v refl))
          | inr short ↦
              simp short (elim (Bool-cases (ltb max_messages_per_second k.messages_in_window)) [
                | inl often ↦ simp often (λ a e.
                    as_before t s k v a kept.0 kept.1 kept.3 kept.4
                      (drop-Then t k v [] k v (same t k v ordered v refl) a e))
                | inr seldom ↦ simp seldom (λ a e.
                    as_before t s k v a kept.0 kept.1 kept.3 kept.4
                      (handle_decoded-Then t k v ordered t.decoded now refl a e))
              ])
        ]
