-- ===== src/Server/Match/Safety.antt =====
-- No sequence of happenings throws, and the board of a match stays sound.
use kung_fu_chess.Prelude.{
  ℕ, ◌≡◌, refl, Bool, Option, none, some, List, [], ◌∷◌, All, Returns, >>=-Returns, arith,
}
use kung_fu_chess.Model.{PieceColor, white, black}
use kung_fu_chess.Model.Board.{Board}
use kung_fu_chess.RealTime.{MotionFactory}
use kung_fu_chess.RealTime.Safety.Invariant.{IsCoherent}
use kung_fu_chess.Engine.Safety.{make_game_core-IsSound}
use kung_fu_chess.Server.Audience.{
  MatchAudience, SendFn, CloseFn, Name, without, seat, watch, unwatch, publish, reseat, Watcher,
}
use kung_fu_chess.Server.Match.State.{Match, Effect, new_match}
use kung_fu_chess.Server.Match.Members.{
  Happening, joins, spectates, leaves, queues, hooks, drops, returns, ticks, join, join_spectator,
  leave_spectator, enqueue, set_wake_hook, on_disconnect, reconnect, happen, happen_all,
}
use kung_fu_chess.Server.Match.Steady.{Closable, IsSteady, Steady, tick-IsSteady}

-- A player who comes with a way to be let go.
abbrev pub HasClose : Happening → Type 0
HasClose (joins _ _ _ close) = ¬ (close ≡ none)
HasClose (returns _ _ close) = ¬ (close ≡ none)
HasClose _ = Unit

seat-Closable :
    (name : Name) (rating : ℕ) (send : SendFn) (close : CloseFn) (a : MatchAudience)
    → ¬ (close ≡ none)
    → Closable a
    → Closable (seat name rating send close a).1
unfolding seat
seat-Closable name rating send none a h c = absurd (h refl)
seat-Closable name rating send (some s) a h c = ground arith

reseat-Closable :
    (color : PieceColor) (send : SendFn) (close : CloseFn) (a : MatchAudience)
    → ¬ (close ≡ none)
    → Closable a
    → Closable (reseat color send close a)
unfolding reseat
reseat-Closable color send none a h c = absurd (h refl)
reseat-Closable white send (some s) a h c = ((λ e. cc), c.1)
reseat-Closable black send (some s) a h c = (c.0, (λ e. cc))

publish-Closable :
    (o : Option (List Watcher)) (a : MatchAudience) → Closable a → Closable (publish o a)
unfolding publish
publish-Closable none a c = c
publish-Closable (some ws) a c = c

happen-IsSteady :
    (h : Happening) (m : Match) → HasClose h → IsSteady m → Returns Steady (happen h m)
unfolding happen join join_spectator leave_spectator enqueue set_wake_hook on_disconnect reconnect
    watch unwatch
happen-IsSteady (joins name rating send close) m c s =
    (_, refl, (s.0, seat-Closable name rating send close m.audience c s.1))
happen-IsSteady (spectates send close) m c s = (_, refl, ground (arith, s.0, s.1))
happen-IsSteady (leaves watcher) m c s =
    (_, refl, (s.0, publish-Closable (without watcher m.audience.watchers) m.audience s.1))
happen-IsSteady (queues from message) m c s = (_, refl, ground (arith, s.0, s.1))
happen-IsSteady hooks m c s = (_, refl, s)
happen-IsSteady (drops color) m c s = (_, refl, s)
happen-IsSteady (returns color send close) m c s =
    (_, refl, ground (arith, s.0, s.1, reseat-Closable color send close m.audience c s.1))
happen-IsSteady (ticks now ms) m c s = tick-IsSteady now ms m s

pub happen_all-IsSteady :
    (hs : List Happening) (m : Match)
    → All HasClose hs
    → IsSteady m
    → Returns Steady (happen_all hs m)
unfolding happen_all
happen_all-IsSteady [] m c s = (([], m), refl, s)
happen_all-IsSteady (h ∷ hs) m c s =
    >>=-Returns _ _ (happen-IsSteady h m c.0 s)
      (λ r k. >>=-Returns _ _ (happen_all-IsSteady hs r.1 c.1 k) (λ q l. (_, refl, l)))

-- A match made over a coherent board, and then any sequence of joins, spectators, queued commands,
-- drops, returns and ticks in which every seated socket comes with a function to close it: nothing
-- throws, the board stays coherent with every motion in flight anchored to it, and everyone who is
-- seated can be let go.
pub new_match-IsSteady :
    (b : Board) (f : MotionFactory) (on_result : Bool) (grace delay : ℕ) (room : Name)
    (hs : List Happening)
    → IsCoherent b
    → All HasClose hs
    → Returns
        (λ (r : List Effect × Match). IsSteady r.1)
        (happen_all hs (new_match b f on_result grace delay room))
unfolding new_match
new_match-IsSteady b f on_result grace delay room hs v c =
    happen_all-IsSteady hs (new_match b f on_result grace delay room) c
      (make_game_core-IsSound f b v, ((λ e. cc), (λ e. cc)))
