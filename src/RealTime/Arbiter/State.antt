-- ===== src/RealTime/Arbiter/State.antt =====
-- The fields of RealTimeArbiter, its cooldowns, and what is due in a step of time. The cooldown map is
-- a list of ids and times that are not in a fixed order.
use kung_fu_chess.Prelude.{
  ℕ, ◌+◌, ◌-◌, min, Bool, true, false, ltb, leb, ◌==◌, if◌then◌else◌, Option, none, some, List, [],
  ◌∷◌, ◌++◌, Result, ok, ◌>>=◌,
}
use kung_fu_chess.Model.{PieceState, moving, airborne}
use kung_fu_chess.Model.Board.{Board, set_piece_state}
use kung_fu_chess.RealTime.Factory.{Motion, MotionKind, move, jump_in_place}

abbrev pub Cooldowns : Type 0
Cooldowns = List (ℕ × ℕ)

pub record RealTimeArbiter : Type 0 where
  pub active_motions : List Motion
  pub cooldowns_remaining_ms : Cooldowns
  pub clock_ms : ℕ

-- unordered_map: find, operator[] = and erase.
unfoldable pub find_cooldown : ℕ → Cooldowns → Option ℕ
find_cooldown id [] = none
find_cooldown id ((i, t) ∷ rest) = if i == id then some t else find_cooldown id rest

unfoldable pub set_cooldown : ℕ → ℕ → Cooldowns → Cooldowns
set_cooldown id t [] = (id, t) ∷ []
set_cooldown id t ((i, u) ∷ rest) =
    if i == id then (id, t) ∷ rest else (i, u) ∷ set_cooldown id t rest

unfoldable pub erase_cooldown : ℕ → Cooldowns → Cooldowns
erase_cooldown id [] = []
erase_cooldown id ((i, u) ∷ rest) =
    let others = erase_cooldown id rest in if i == id then others else (i, u) ∷ others

unfoldable pub find_motion : ℕ → List Motion → Option Motion
find_motion id [] = none
find_motion id (m ∷ ms) = if m.moving_piece.id == id then some m else find_motion id ms

unfoldable pub motion_for : RealTimeArbiter → ℕ → Option Motion
motion_for a id = find_motion id a.active_motions

unfoldable pub cooldown_remaining_ms : RealTimeArbiter → ℕ → ℕ
cooldown_remaining_ms a id = elim (find_cooldown id a.cooldowns_remaining_ms) [
  | none ↦ 0
  | some t ↦ t
]

unfoldable pub is_piece_busy : RealTimeArbiter → ℕ → Bool
unfolding motion_for
is_piece_busy a id = elim (motion_for a id) [
  | some _ ↦ true
  | none ↦ elim (find_cooldown id a.cooldowns_remaining_ms) [ none ↦ false | some _ ↦ true ]
]

abbrev pub flying_state : MotionKind → PieceState
flying_state move = moving
flying_state jump_in_place = airborne

-- The two statements of `start_motion`. In the source the motion is listed first and stays listed if the
-- other throws; here an exception carries no state.
unfoldable pub start_motion : Motion → Board → RealTimeArbiter → Result (Board × RealTimeArbiter)
start_motion m b a = do
  b' ← set_piece_state b m.source (flying_state m.kind)
  ok (b', record a { active_motions = a.active_motions ++ m ∷ [] })

-- Every cooldown loses `ms`; those that end are erased.
unfoldable pub age_cooldowns : ℕ → Cooldowns → Cooldowns
age_cooldowns ms [] = []
age_cooldowns ms ((i, t) ∷ rest) =
    let others = age_cooldowns ms rest in if leb t ms then others else (i, t - ms) ∷ others

pub record PendingArrival : Type 0 where
  pub motion : Motion
  pub time_into_tick_ms : ℕ

abbrev pub advance_motion : ℕ → Motion → Motion
advance_motion ms m = record m { elapsed_ms = m.elapsed_ms + ms }

-- std::clamp(time_until_arrival_ms, 0, ms); a negative time is the 0 of the subtraction.
abbrev pub arrival_time : ℕ → Motion → ℕ
arrival_time ms m = min (m.duration_ms - m.elapsed_ms) ms

abbrev pub is_due : ℕ → Motion → Bool
is_due ms m = leb m.duration_ms (m.elapsed_ms + ms)

unfoldable pub pending_arrivals : ℕ → List Motion → List PendingArrival
pending_arrivals ms [] = []
pending_arrivals ms (m ∷ rest) =
    let others = pending_arrivals ms rest in
    if is_due ms m
    then record { motion = advance_motion ms m; time_into_tick_ms = arrival_time ms m } ∷ others
    else others

unfoldable pub still_active : ℕ → List Motion → List Motion
still_active ms [] = []
still_active ms (m ∷ rest) =
    let others = still_active ms rest in
    if is_due ms m then others else advance_motion ms m ∷ others

-- std::stable_sort by the time into the tick.
unfoldable pub insert_pending : PendingArrival → List PendingArrival → List PendingArrival
insert_pending x [] = x ∷ []
insert_pending x (y ∷ ys) =
    if ltb y.time_into_tick_ms x.time_into_tick_ms then y ∷ insert_pending x ys else x ∷ y ∷ ys

unfoldable pub sort_pending : List PendingArrival → List PendingArrival
unfolding insert_pending
sort_pending [] = []
sort_pending (x ∷ xs) = insert_pending x (sort_pending xs)
