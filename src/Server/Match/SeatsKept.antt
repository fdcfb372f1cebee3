-- ===== src/Server/Match/SeatsKept.antt =====
-- The seats of a match through its joins, its drops and its returns.
use kung_fu_chess.Prelude.{
  has_value, ℕ, ◌+◌, ◌<◌, ◌≡◌, refl, Bool, ltb, Option, none, some, List, arith, if◌then◌else◌,
  ◌==◌,
}
use kung_fu_chess.Model.{PieceColor, white, black}
use kung_fu_chess.RealTime.{MotionFactory}
use kung_fu_chess.Model.Board.{Board}
use kung_fu_chess.Server.DisconnectWatch.{report_disconnect, cancel}
use kung_fu_chess.Server.Audience.{
  MatchAudience, Watcher, Name, SendFn, CloseFn, seat, watch, unwatch, publish, without, reseat,
}
use kung_fu_chess.Server.Messages.{ClientMessage}
use kung_fu_chess.Server.Match.State.{Match, Effect, new_match}
use kung_fu_chess.Server.Match.Seating.{Taken, TakenBy, Seated, SameSeats-Seated}
use kung_fu_chess.Server.Match.Members.{
  join, join_spectator, leave_spectator, enqueue, set_wake_hook, on_disconnect, reconnect,
  reclaimable_seat_for,
}

-- A join takes the next seat, as long as there is one.
pub record Sits (n : ℕ) (r : Option PieceColor × List Effect × Match) : Type 0 where
  pub color : PieceColor
  pub given : r.0 ≡ some color
  pub taken : Taken (n + 1) color
  pub seated : Seated (n + 1) r.2

abbrev pub color_of_seat : ℕ → PieceColor
color_of_seat n = if n == 0 then white else black

TakenBy-suc : (n : ℕ) (o : Option PieceColor) → TakenBy n o → TakenBy (n + 1) o
TakenBy-suc n none t = tt
TakenBy-suc n (some white) t = omega (arith, t)
TakenBy-suc n (some black) t = omega (arith, t)

pub join-Sits :
    (n : ℕ) (name : Name) (rating : ℕ) (send : SendFn) (close : CloseFn) (m : Match)
    → n < 2
    → Seated n m
    → Sits n (join name rating send close m)
unfolding join seat
join-Sits n name rating send close m h s = record {
  color = color_of_seat n;
  given = ground (arith, s.first, s.second);
  taken = ground arith;
  seated = record {
    first = ground (arith, s.first, s.second);
    second = ground (arith, s.first, s.second);
    at_most = omega (arith, h);
    dropped = TakenBy-suc n m.disconnect_watch.pending s.dropped;
    counted = TakenBy-suc n m.disconnect_watch.watching s.counted;
  };
}

pub spectate-Seated :
    (n : ℕ) (send : SendFn) (close : CloseFn) (m : Match)
    → Seated n m
    → Seated n (join_spectator send close m).2
unfolding join_spectator watch
spectate-Seated n send close m s = record {
  first = ground (arith, s.first);
  second = ground (arith, s.second);
  at_most = s.at_most;
  dropped = ground (arith, s.dropped);
  counted = ground (arith, s.counted);
}

publish-sends :
    (o : Option (List Watcher)) (a : MatchAudience)
    → ((publish o a).white_send ≡ a.white_send) × ((publish o a).black_send ≡ a.black_send)
unfolding publish
publish-sends none a = (refl, refl)
publish-sends (some ws) a = (refl, refl)

pub leave-Seated : (n watcher : ℕ) (m : Match) → Seated n m → Seated n (leave_spectator watcher m)
unfolding leave_spectator unwatch
leave-Seated n watcher m s =
    let (w, b) = publish-sends (without watcher m.audience.watchers) m.audience in
    record {
      first = rw w s.first;
      second = rw b s.second;
      at_most = s.at_most;
      dropped = s.dropped;
      counted = s.counted;
    }

pub drop-Seated :
    (n : ℕ) (color : PieceColor) (m : Match)
    → Taken n color
    → Seated n m
    → Seated n (on_disconnect color m)
unfolding on_disconnect report_disconnect
drop-Seated n color m t s = record {
  first = s.first;
  second = s.second;
  at_most = s.at_most;
  dropped = t;
  counted = s.counted;
}

pub enqueue-Seated :
    (n : ℕ) (from : PieceColor) (message : ClientMessage) (m : Match)
    → Seated n m
    → Seated n (enqueue from message m).1
unfolding enqueue
enqueue-Seated n from message m s = SameSeats-Seated n m (enqueue from message m).1 (ground arith) s

reseat-Sends :
    (n : ℕ) (color : PieceColor) (send : SendFn) (close : CloseFn) (a : MatchAudience)
    → Taken n color
    → has_value a.white_send ≡ ltb 0 n
    → has_value a.black_send ≡ ltb 1 n
    → (has_value (reseat color send close a).white_send ≡ ltb 0 n)
      × (has_value (reseat color send close a).black_send ≡ ltb 1 n)
unfolding reseat
reseat-Sends n white send close a t w b = (ground arith, b)
reseat-Sends n black send close a t w b = (w, ground arith)

pub reconnect-Seated :
    (n : ℕ) (color : PieceColor) (send : SendFn) (close : CloseFn) (m : Match)
    → Taken n color
    → Seated n m
    → Seated n (reconnect color send close m).2
unfolding reconnect cancel
reconnect-Seated n color send close m t s =
    let (w, b) = reseat-Sends n color send close m.audience t s.first s.second in
    record {
      first = ground (arith, s.first);
      second = ground (arith, s.second);
      at_most = s.at_most;
      dropped = ground (arith, s.dropped);
      counted = ground (arith, s.counted);
    }

-- The seat that a name may return to is taken.
pub reclaimable-Taken :
    (n : ℕ) (name : Name) (m : Match) → Seated n m → TakenBy n (reclaimable_seat_for name m)
unfolding reclaimable_seat_for
reclaimable-Taken n name m s = ground (arith, s.counted)

pub new_match-Seated :
    (b : Board) (f : MotionFactory) (on_result : Bool) (grace_ms delay : ℕ) (room : Name)
    → Seated 0 (set_wake_hook (new_match b f on_result grace_ms delay room))
unfolding set_wake_hook new_match
new_match-Seated b f on_result grace_ms delay room = record {
  first = refl;
  second = refl;
  at_most = omega arith;
  dropped = tt;
  counted = tt;
}
