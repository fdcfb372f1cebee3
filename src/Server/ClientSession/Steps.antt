-- ===== src/Server/ClientSession/Steps.antt =====
-- What each handler of a message does to the order of a connection (server/src/kfc/server/client_session.cpp).
use kung_fu_chess.Prelude.{
  has_value, ℕ, ◌≡◌, refl, sym, ◌∙◌, ok, inl, inr, false, Bool-cases, Option, none, some, List, [],
  ◌∷◌, arith,
}
use kung_fu_chess.Server.Audience.{Name, CloseFn}
use kung_fu_chess.Server.Messages.{
  ClientMessage, login, play, create_room, resign, join_room, move_request, jump_request,
}
use kung_fu_chess.Server.SessionRegistry.{SessionRegistry, claim, is_live}
use kung_fu_chess.Server.Match.Seating.{IfOk, ok-IfOk, bind-IfOk}
use kung_fu_chess.Server.Rooms.{RoomManager, Place, RoomEffect, Outcome, seated, failed, redirected}
use kung_fu_chess.Server.ClientSession.Defs.{
  AuthedUser, ClientSession, Services, AuthOutcome, Incoming, hang_up, drop,
}
use kung_fu_chess.Server.ClientSession.Handling.{
  authenticated, ask_limiter, log_in, handle_login, guest_of, seat_for, take_seat, ask_seat,
  handle_seating, play_in, handle_gameplay, handle, handle_decoded,
}
use kung_fu_chess.Server.ClientSession.Following.{
  InOrder, AsksSeat, IsCommand, seat_given, Follows, Then,
}

pub drop-Then :
    (t : Incoming) (s : ClientSession) (v : Services) (said : List RoomEffect)
    (after : ClientSession) (w : Services)
    → Follows t s v after w
    → IfOk (Then t s v) (drop said after w)
unfolding drop
drop-Then t s v said after w f = hung after.close
  where
    hung : (c : CloseFn) → IfOk (Then t s v) (hang_up c (said, after, w))
    hung none = unfold hang_up in (λ a e. absurd (cc))
    hung (some socket) = unfold hang_up in ok-IfOk (Then t s v) _ f

no_seat : (o : Option Place) → has_value o ≡ false → o ≡ none
no_seat none e = refl
no_seat (some p) e = absurd (cc)

module _ (t : Incoming) (s : ClientSession) (v : Services) (h : InOrder s) where
  -- The session is as it was, and so are the rooms.
  pub same : (w : Services) → w.rooms ≡ v.rooms → Follows t s v s w
  same w e = record {
    same_user = inr refl;
    same_seat = inr refl;
    in_order = h;
    touched = inl (e, refl);
  }

  log_in-Then :
      (name : Name) (rating : ℕ) (w : Services) (r : SessionRegistry)
      → w.rooms ≡ v.rooms
      → s.pending ≡ none
      → s.seat ≡ none
      → IfOk (Then t s v) (log_in name rating (claim name r) s w)
  unfolding log_in claim
  log_in-Then name rating w r e p q = elim (Bool-cases (is_live name r.live)) [
    | inl taken ↦ rw (taken, claim) (drop-Then t s v _ s _ (same _ e))
    | inr free ↦
        rw (free, claim)
          (ok-IfOk (Then t s v) _ (record {
            same_user = inl p;
            same_seat = inl q;
            in_order = (rw q tt, (refl, refl));
            touched = inl (e, refl);
          }))
  ]

  not_authenticated : authenticated s ≡ false → (s.pending ≡ none) × (s.seat ≡ none)
  not_authenticated e = ground arith

  handle_login-Then :
      (name : Name) (auth : AuthOutcome) (now : ℕ)
      → IfOk (Then t s v) (handle_login name auth now s v)
  unfolding handle_login
  handle_login-Then name auth now =
      let asked = ask_limiter v.auth_limiter s.remote_ip now in
      elim (Bool-cases (authenticated s)) [
        | inl known ↦ simp known (ok-IfOk (Then t s v) ([], s, v) (same v refl))
        | inr new ↦
            let (p, q) = not_authenticated new in
            simp new (elim (Bool-cases asked.0) [
              | inr over ↦ simp over (drop-Then t s v _ s _ (same _ refl))
              | inl within ↦ simp within (elim (Bool-cases auth.is_ok) [
                | inr wrong ↦ simp wrong (drop-Then t s v _ s _ (same _ refl))
                | inl right ↦ simp right (log_in-Then name auth.rating _ v.sessions refl p q)
              ])
            ])
      ]

  module _ (user : AuthedUser) (e : s.pending ≡ some user) (q : s.seat ≡ none)
      (message : ClientMessage) (d : t.decoded ≡ some message) (asks : AsksSeat message) where
    -- The rooms are as the search has left them, and there is no seat.
    unseated :
        (r : Outcome × List RoomEffect × RoomManager) (w : Services)
        → seat_for message (guest_of user s) t v.rooms ≡ ok r
        → seat_given r.0 ≡ none
        → w.rooms ≡ r.2
        → Follows t s v s w
    unseated r w found lost left = record {
      same_user = inr refl;
      same_seat = inr refl;
      in_order = h;
      touched = inr (inl (user, message, r, e, q, d, asks, found, left, q ∙ sym lost));
    }

    take_seat-Then :
        (r : Outcome × List RoomEffect × RoomManager) (w : Services)
        → seat_for message (guest_of user s) t v.rooms ≡ ok r
        → IfOk (Then t s v) (take_seat r s w)
    unfolding take_seat
    take_seat-Then (seated p, effects, m) w found = ok-IfOk (Then t s v) _ (record {
      same_user = inr refl;
      same_seat = inl q;
      in_order = (rw e tt, h.1);
      touched = inr (inl (user, message, _, e, q, d, asks, found, refl, refl));
    })
    take_seat-Then (redirected (c ∷ cs), effects, m) w found =
        drop-Then t s v _ s _ (unseated _ _ found refl refl)
    take_seat-Then (redirected [], effects, m) w found =
        drop-Then t s v _ s _ (unseated _ _ found refl refl)
    take_seat-Then (failed reason, effects, m) w found =
        drop-Then t s v _ s _ (unseated _ _ found refl refl)

  ask_seat-Then :
      (message : ClientMessage) (u : Option AuthedUser) (now : ℕ)
      → s.pending ≡ u
      → t.decoded ≡ some message
      → AsksSeat message
      → IfOk (Then t s v) (ask_seat message t u now s v)
  unfolding ask_seat
  ask_seat-Then message none now e d asks = ok-IfOk (Then t s v) ([], s, v) (same v refl)
  ask_seat-Then message (some user) now e d asks =
      let asked = ask_limiter v.seat_limiter s.remote_ip now in
      elim (Bool-cases (has_value s.seat)) [
        | inl has ↦ simp has (ok-IfOk (Then t s v) ([], s, v) (same v refl))
        | inr lacks ↦ simp lacks (elim (Bool-cases asked.0) [
          | inr over ↦ simp over (drop-Then t s v _ s _ (same _ refl))
          | inl within ↦ simp within (
              bind-IfOk (Then t s v) (seat_for message (guest_of user s) t v.rooms)
                (λ r. take_seat r s (record v { seat_limiter = asked.1 }))
                (λ r found.
                  take_seat-Then user e (no_seat s.seat lacks) message d asks r
                    (record v { seat_limiter = asked.1 }) found))
        ])
      ]

  play_in-Follows :
      (message : ClientMessage) (o : Option Place)
      → s.seat ≡ o
      → t.decoded ≡ some message
      → IsCommand message
      → Then t s v (play_in message o s v)
  unfolding play_in
  play_in-Follows message none e d is = same v refl
  play_in-Follows message (some p) e d is = elim (Bool-cases p.spectator) [
    | inl watches ↦ simp watches (same v refl)
    | inr plays ↦ simp plays (record {
      same_user = inr refl;
      same_seat = inr refl;
      in_order = h;
      touched = inr (inr (p, message, e, plays, d, is, refl, refl));
    })
  ]

  handle-Then :
      (message : ClientMessage) (now : ℕ)
      → t.decoded ≡ some message
      → IfOk (Then t s v) (handle message t now s v)
  unfolding handle handle_seating handle_gameplay
  handle-Then (login name password) now d = handle_login-Then name t.auth now
  handle-Then play now d = ask_seat-Then play s.pending now refl d tt
  handle-Then create_room now d = ask_seat-Then create_room s.pending now refl d tt
  handle-Then (join_room key) now d = ask_seat-Then (join_room key) s.pending now refl d tt
  handle-Then resign now d = ok-IfOk (Then t s v) _ (play_in-Follows resign s.seat refl d tt)
  handle-Then (move_request a b) now d =
      ok-IfOk (Then t s v) _ (play_in-Follows (move_request a b) s.seat refl d tt)
  handle-Then (jump_request a) now d =
      ok-IfOk (Then t s v) _ (play_in-Follows (jump_request a) s.seat refl d tt)

  pub handle_decoded-Then :
      (o : Option ClientMessage) (now : ℕ)
      → t.decoded ≡ o
      → IfOk (Then t s v) (handle_decoded o t now s v)
  unfolding handle_decoded
  handle_decoded-Then none now d = ok-IfOk (Then t s v) ([], s, v) (same v refl)
  handle_decoded-Then (some message) now d = handle-Then message now d
