-- ===== src/Tests/MatchTests.antt =====
-- The pieces of a match, and a whole match over the board of the fixtures.
use kung_fu_chess.Prelude.{
  ◌+◌, ◌*◌, ◌≤◌, ◌++◌, ◌||◌, not, arith, ◌≡◌, refl, ◌⊎◌, true, false, none, some, List, [], ◌∷◌,
  All, Returns,
}
use kung_fu_chess.Model.{white, black, opposite_of}
use kung_fu_chess.RealTime.{default_factory}
use kung_fu_chess.Server.DisconnectWatch.{
  DisconnectWatch, new_watch, advance, call_all, reports, advances, cancels, WatchCall,
}
use kung_fu_chess.Server.DisconnectWatch.Countdown.{Expires, GoesOn, advance_lem}
use kung_fu_chess.Server.Audience.{new_audience, both_seats_taken}
use kung_fu_chess.Server.{move_request, jump_request, resign}
use kung_fu_chess.Server.Match.{
  Match, new_match, Effect, apply, Happening, joins, spectates, queues, drops, returns, ticks,
  happen_all,
}
use kung_fu_chess.Server.Match.Reports.{Follows}
use kung_fu_chess.Server.Match.Latches.{happen_all-Follows}
use kung_fu_chess.Server.Match.Steady.{IsSteady}
use kung_fu_chess.Server.Match.Safety.{HasClose, new_match-IsSteady}
use kung_fu_chess.Server.Match.Forfeit.{drop-Finishes}
use kung_fu_chess.Server.Match.Verdicts.{IsSettled}
use kung_fu_chess.Engine.Safety.{make_game_core-IsSound}
use kung_fu_chess.Server.Match.Commands.{Obeys, apply-Obeys, resign_lem}
use kung_fu_chess.Tests.Fixtures.{square, rooks, rooks-IsCoherent}

-- Twenty seconds for white, of which half a second has passed.
abbrev counting : DisconnectWatch
counting = record {
  grace_ms = 20000;
  frozen = true;
  pending = some black;
  watching = some white;
  deadline = 20500000000;
  last_reported_second = some 20;
}

advance_lem_example :
    Expires 1000000000 white counting (advance 1000000000 counting)
    ⊎ GoesOn 1000000000 white counting (advance 1000000000 counting)
advance_lem_example = advance_lem 1000000000 white counting refl

abbrev room : Match
room = new_match rooks default_factory true 20000 3000 []

-- Two players and a spectator; white moves; black drops out and comes back; white gives up.
abbrev evening : List Happening
evening =
    joins (65 ∷ []) 1200 1 (some 1)
    ∷ joins (66 ∷ []) 1300 2 (some 2)
    ∷ spectates 3 none
    ∷ queues white (move_request (square 0 0) (square 0 4))
    ∷ ticks 0 100
    ∷ drops black
    ∷ ticks 100000000 100
    ∷ returns black 4 (some 4)
    ∷ queues black (jump_request (square 0 0))
    ∷ queues white resign
    ∷ ticks 200000000 5000
    ∷ ticks 9000000000 100
    ∷ []

evening-HasClose : All HasClose evening
evening-HasClose =
    ((λ e. cc), ((λ e. cc), (tt, (tt, (tt, (tt, (tt, ((λ e. cc), (tt, (tt, (tt, (tt, tt))))))))))))

new_match-IsSteady_example :
    Returns (λ (r : List Effect × Match). IsSteady r.1) (happen_all evening room)
new_match-IsSteady_example =
    new_match-IsSteady rooks default_factory true 20000 3000 [] evening rooks-IsCoherent
      evening-HasClose

-- The same evening, as it went.
spent : Returns (λ (r : List Effect × Match). IsSteady r.1) (happen_all evening room)
spent =
    new_match-IsSteady rooks default_factory true 20000 3000 [] evening rooks-IsCoherent
      evening-HasClose

happen_all-Follows_example : Follows room spent.0
happen_all-Follows_example = happen_all-Follows evening room spent.0 spent.1

abbrev started : Match
started = record room {
  audience = record new_audience { white_send = some 1; black_send = some 2; seats_filled = 2 };
}

apply-Obeys_example :
    Returns
      (Obeys white (move_request (square 0 0) (square 0 4)) started)
      (apply white (move_request (square 0 0) (square 0 4)) started)
unfolding new_match
apply-Obeys_example =
    apply-Obeys white (move_request (square 0 0) (square 0 4)) started rooks-IsCoherent.valid

resign_lem_example :
    Returns
      (λ (r : List Effect × Match).
        ((started.game_over ≡ false)
          × ((started.disconnect_watch.frozen ≡ true) ⊎ (both_seats_taken started.audience ≡ true))
          × (r.0 ≡ [])
          × (r.1 ≡ record started {
            game_over = true;
            pending_game_over = some (some (opposite_of white));
          }))
        ⊎ (((started.game_over ≡ true)
              ⊎ ((started.disconnect_watch.frozen ≡ false)
                  × (both_seats_taken started.audience ≡ false)))
            × (r.1 ≡ started)))
      (apply white resign started)
resign_lem_example = resign_lem white started

abbrev full_room : Match
full_room = record room {
  audience = record new_audience {
    white_send = some 1;
    black_send = some 2;
    white_close = some (some 1);
    black_close = some (some 2);
    white_username = 65 ∷ [];
    black_username = 66 ∷ [];
    seats_filled = 2;
  };
}

full_room-IsSteady : IsSteady full_room
unfolding new_match
full_room-IsSteady =
    (make_game_core-IsSound default_factory rooks rooks-IsCoherent, ((λ e. cc), (λ e. cc)))

full_room-IsSettled : IsSettled full_room
unfolding new_match
full_room-IsSettled = (refl, λ e. absurd (cc))

full_room-idle : full_room.disconnect_watch.watching ≡ none
unfolding new_match
full_room-idle = refl

grace_passes : 100 + full_room.disconnect_watch.grace_ms * 1000000 ≤ 20000000100
unfolding new_match
grace_passes = omega arith

-- White drops out; Black drops out too and comes back; a second passes, and the rest of the grace.
abbrev lonely : List Happening
lonely = drops black ∷ ticks 1000000000 100 ∷ returns black 4 (some 4) ∷ []

drop-Finishes_example :
    Returns {0, 0}
      (λ (effects, k). (k.game_over ≡ true) × (k.result_reported || not k.has_on_result ≡ true))
      (happen_all (drops white ∷ ticks 100 16 ∷ (lonely ++ ticks 20000000100 16 ∷ [])) full_room)
drop-Finishes_example =
    drop-Finishes white full_room 100 16 lonely 20000000100 16 full_room-IsSteady
      full_room-IsSettled full_room-idle (tt, (tt, ((λ e. cc), tt))) (tt, (tt, ((λ e. cc), tt)))
      grace_passes

-- Black's drop, reported while White is counted down for, is nowhere once White is back.
abbrev two_drops : List WatchCall
two_drops = reports white ∷ advances 100 ∷ reports black ∷ advances 200 ∷ cancels white ∷ []

forgotten :
    call_all two_drops (new_watch 20000)
    ≡ record (new_watch 20000) { deadline = 20000000100; last_reported_second = some 20 }
unfolding call_all
forgotten = refl
