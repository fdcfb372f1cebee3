-- ===== src/Tests/RoomTests.antt =====
-- Rooms and their scheduler on small runs.
use kung_fu_chess.Prelude.{
  ◌≡◌, refl, true, none, some, List, [], ◌∷◌, Result, ok, err, Returns, arith,
}
use kung_fu_chess.RealTime.{default_factory}
use kung_fu_chess.Server.MatchScheduler.{new_scheduler, add}
use kung_fu_chess.Server.MatchScheduler.Ownership.{Adds, add-Adds, new_scheduler-IsManned}
use kung_fu_chess.Server.Rooms.{
  RoomManager, new_manager, Guest, nearest, closest_waiting_room, consider, around, gap_of, room_of,
  join_any, create_room,
}
use kung_fu_chess.Server.Rooms.Closest.{IsEntry, gap_found, smallest_gap, nearest-IsSmallest}
use kung_fu_chess.Server.Rooms.Pairing.{Seats, join_any-Seats}
use kung_fu_chess.Server.Rooms.Naming.{Creates, create_room-Creates}
use kung_fu_chess.Server.Rooms.Serving.{
  Request, plays_any, creates, joins_named, goes_away, World, new_manager-Kept,
}
use kung_fu_chess.Tests.Fixtures.{rooks}

abbrev pub lobby : RoomManager
lobby = new_manager rooks default_factory true 20000 true (104 ∷ []) 2

abbrev pub ann : Guest
ann = record { username = 65 ∷ []; rating = 1200; send = 1; close = some 1 }

abbrev bob : Guest
bob = record { username = 66 ∷ []; rating = 1290; send = 2; close = some 2 }

-- Two lists of two waiting rooms: the nearer rating wins, and a gap of more than a hundred is too much.
waiting_run :
    (closest_waiting_room 1250 ((1100, 4) ∷ (1190, 5) ∷ (1340, 6) ∷ []) ≡ some 5)
    × (closest_waiting_room 1450 ((1100, 4) ∷ (1190, 5) ∷ (1340, 6) ∷ []) ≡ none)
unfolding closest_waiting_room nearest consider around gap_of
waiting_run = (refl, refl)

nearest-IsSmallest_example :
    (gap_found (nearest 1250 ((1100, 4) ∷ (1190, 5) ∷ (1340, 6) ∷ []))
      ≡ smallest_gap 1250 none ((1100, 4) ∷ (1190, 5) ∷ (1340, 6) ∷ []))
    × IsEntry 1250
        ((1100, 4) ∷ (1190, 5) ∷ (1340, 6) ∷ [])
        (nearest 1250 ((1100, 4) ∷ (1190, 5) ∷ (1340, 6) ∷ []))
    × (closest_waiting_room 1250 ((1100, 4) ∷ (1190, 5) ∷ (1340, 6) ∷ [])
        ≡ room_of (nearest 1250 ((1100, 4) ∷ (1190, 5) ∷ (1340, 6) ∷ [])))
nearest-IsSmallest_example =
    nearest-IsSmallest 1250 ((1100, 4) ∷ (1190, 5) ∷ (1340, 6) ∷ [])
      (omega arith, (omega arith, (omega arith, tt)))

add-Adds_example : Adds 7 (new_scheduler 3 0) (add 7 (new_scheduler 3 0))
unfolding new_scheduler
add-Adds_example = add-Adds 7 (new_scheduler 3 0) (new_scheduler-IsManned 3 0) refl

join_any-Seats_example : Returns (λ r. Seats [] r) (join_any ann lobby)
join_any-Seats_example =
    join_any-Seats ann [] lobby
      (new_manager-Kept rooks default_factory true 20000 true (104 ∷ []) 2)

create_room-Creates_example :
    Creates [] ((51 ∷ []) ∷ []) lobby (create_room ((51 ∷ []) ∷ []) ann lobby)
create_room-Creates_example =
    create_room-Creates ((51 ∷ []) ∷ []) ann [] lobby
      (new_manager-Kept rooks default_factory true 20000 true (104 ∷ []) 2) ((λ e. cc), tt)

-- A pair by rating, a room by name with both its seats taken, and everyone leaves but one.
abbrev night : List Request
night =
    plays_any ann
    ∷ plays_any bob
    ∷ creates ((51 ∷ []) ∷ []) ann
    ∷ joins_named (51 ∷ []) none bob
    ∷ goes_away 3
    ∷ goes_away 2
    ∷ []

abbrev out : Result World → World
out (ok w) = w
out (err _) = ([], lobby)
