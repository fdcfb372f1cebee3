-- ===== src/Server/MatchScheduler/Defs.antt =====
-- match_scheduler.cpp: the worker that ticks each match. A match is the id of its room, one for each
-- Match object; a worker is its place in the vector. Each critical section is one step.
use kung_fu_chess.Prelude.{
  ℕ, suc, ◌+◌, ◌-◌, Bool, true, false, ◌==◌, ltb, if◌then◌else◌, Option, none, some, List, [], ◌∷◌,
  ◌++◌, get_elem?, set, replicate,
}

pub record Worker : Type 0 where
  pub matches : List ℕ
  pub nudged : Bool
  pub load : ℕ

-- The unordered map of owners is a function.
pub record MatchScheduler : Type 0 where
  pub workers : List Worker
  pub owners : ℕ → Option ℕ

abbrev pub idle_worker : Worker
idle_worker = record { matches = []; nudged = false; load = 0 }

-- `hardware` is what std::thread::hardware_concurrency answers.
unfoldable pub workers_for : ℕ → ℕ → ℕ
workers_for count hardware = if count == 0 then (if hardware == 0 then 1 else hardware) else count

unfoldable pub new_scheduler : ℕ → ℕ → MatchScheduler
unfolding workers_for
new_scheduler count hardware = record {
  workers = replicate (workers_for count hardware) idle_worker;
  owners = λ key. none;
}

-- The loop of `add`: the worker chosen so far with its load, and the place of the next one.
unfoldable pub choose : Option (ℕ × ℕ) → ℕ → List Worker → Option (ℕ × ℕ)
choose best place [] = best
choose none place (w ∷ ws) = choose (some (place, w.load)) (suc place) ws
choose (some (chosen, fewest)) place (w ∷ ws) =
    choose (if ltb w.load fewest then some (place, w.load) else some (chosen, fewest)) (suc place)
      ws

abbrev pub take_on : ℕ → Worker → Worker
take_on key w = record w { matches = w.matches ++ key ∷ []; load = w.load + 1 }

-- std::find and erase: the first one only.
unfoldable pub erase_first : ℕ → List ℕ → List ℕ
erase_first key [] = []
erase_first key (x ∷ xs) = let rest = erase_first key xs in if x == key then xs else x ∷ rest

unfoldable pub holds : ℕ → List ℕ → Bool
holds key [] = false
holds key (x ∷ xs) = let rest = holds key xs in if x == key then true else rest

unfoldable pub let_go : ℕ → Worker → Worker
unfolding erase_first holds
let_go key w =
    if holds key w.matches
    then record w { matches = erase_first key w.matches; load = w.load - 1 }
    else w

abbrev pub nudge : Worker → Worker
nudge w = record w { nudged = true }

unfoldable pub change_worker : ℕ → (Worker → Worker) → List Worker → List Worker
change_worker place f ws = elim (get_elem? ws place) [ none ↦ ws | some w ↦ set ws place (f w) ]

abbrev pub own : ℕ → Option ℕ → (ℕ → Option ℕ) → ℕ → Option ℕ
own key owner owners k = if k == key then owner else owners k

-- Where a new match goes.
unfoldable pub place_on : Option (ℕ × ℕ) → ℕ → MatchScheduler → MatchScheduler
unfolding change_worker
place_on none key s = s
place_on (some (chosen, fewest)) key s = record {
  workers = change_worker chosen (take_on key) s.workers;
  owners = own key (some chosen) s.owners;
}

unfoldable pub add : ℕ → MatchScheduler → MatchScheduler
unfolding choose place_on
add key s = place_on (choose none 0 s.workers) key s

unfoldable pub take_from : Option ℕ → ℕ → MatchScheduler → MatchScheduler
unfolding change_worker let_go
take_from none key s = s
take_from (some owner) key s = record {
  workers = change_worker owner (let_go key) s.workers;
  owners = own key none s.owners;
}

unfoldable pub remove : ℕ → MatchScheduler → MatchScheduler
unfolding take_from
remove key s = take_from (s.owners key) key s

unfoldable pub nudge_owner : Option ℕ → MatchScheduler → MatchScheduler
unfolding change_worker
nudge_owner none s = s
nudge_owner (some owner) s = record s { workers = change_worker owner nudge s.workers }

unfoldable pub wake : ℕ → MatchScheduler → MatchScheduler
unfolding nudge_owner
wake key s = nudge_owner (s.owners key) s

unfoldable pub match_count : List Worker → ℕ
match_count [] = 0
match_count (w ∷ ws) = w.load + match_count ws

abbrev pub min_tick_advance_ms : ℕ
min_tick_advance_ms = 1

abbrev pub max_tick_advance_ms : ℕ
max_tick_advance_ms = 200

-- std::clamp of what the clock has moved since the last pass.
unfoldable pub advance_of : ℕ → ℕ → ℕ
advance_of last now =
    if ltb (now - last) min_tick_advance_ms
    then min_tick_advance_ms
    else if ltb max_tick_advance_ms (now - last)
    then max_tick_advance_ms
    else now - last

-- One turn of a worker's loop: the matches it ticks, in order, by how much, and the worker after it.
unfoldable pub pass : ℕ → ℕ → Worker → List ℕ × ℕ × Worker
unfolding advance_of
pass last now w = (w.matches, advance_of last now, record w { nudged = false })
