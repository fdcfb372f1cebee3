-- ===== src/RealTime/Arbiter/Steps.antt =====
-- advance_time: the arrivals of a step, one after another, and what is left in flight.
use kung_fu_chess.Prelude.{
  ℕ, ◌+◌, ◌-◌, Bool, false, not, ◌&&◌, ◌||◌, ltb, ◌==◌, if◌then◌else◌, Option, none, some, List, [],
  ◌∷◌, ◌++◌, Result, ok, ◌>>=◌,
}
use kung_fu_chess.Model.{Piece}
use kung_fu_chess.Model.Board.{Board}
use kung_fu_chess.RealTime.Factory.{Motion, is_jump}
use kung_fu_chess.RealTime.Collision.{ArrivalEvent}
use kung_fu_chess.RealTime.Arbiter.State.{
  Cooldowns, RealTimeArbiter, set_cooldown, erase_cooldown, age_cooldowns, PendingArrival,
  pending_arrivals, still_active, sort_pending,
}
use kung_fu_chess.RealTime.Arbiter.Arrivals.{ResolvedArrival, resolve_arrival}

-- The local variables of the loop over the pending arrivals.
pub record Batch : Type 0 where
  pub board : Board
  pub cooldowns : Cooldowns
  pub captured_this_batch : List ℕ
  pub events : List ArrivalEvent

unfoldable pub contains_id : ℕ → List ℕ → Bool
contains_id id [] = false
contains_id id (i ∷ is) = i == id || contains_id id is

abbrev pub captured_ids : Option Piece → List ℕ
captured_ids none = []
captured_ids (some p) = p.id ∷ []

-- The cooldown of a piece that arrived `t` into a tick of `ms`.
unfoldable pub rest_after : ℕ → PendingArrival → Bool → Cooldowns → Cooldowns
rest_after ms p arrived cooldowns =
    if arrived && ltb (ms - p.time_into_tick_ms) p.motion.cooldown_ms
    then set_cooldown p.motion.moving_piece.id (p.motion.cooldown_ms - (ms - p.time_into_tick_ms))
        cooldowns
    else cooldowns

abbrev pub record_arrival : ℕ → ℕ → PendingArrival → Batch → ResolvedArrival → Board → Batch
record_arrival start ms p batch r b = record {
  board = b;
  cooldowns = rest_after ms p r.piece_actually_arrived batch.cooldowns;
  captured_this_batch = captured_ids r.event.captured_piece ++ batch.captured_this_batch;
  events = batch.events ++ record r.event { arrived_at_ms = start + p.time_into_tick_ms } ∷ [];
}

unfoldable pub resolve_one : ℕ → ℕ → PendingArrival → Batch → Result Batch
resolve_one start ms p batch =
    if contains_id p.motion.moving_piece.id batch.captured_this_batch
    then ok batch
    else do (r, b) ← resolve_arrival p.motion batch.board; ok (record_arrival start ms p batch r b)

unfoldable pub resolve_all : ℕ → ℕ → List PendingArrival → Batch → Result Batch
resolve_all start ms [] batch = ok batch
resolve_all start ms (p ∷ ps) batch = resolve_one start ms p batch >>= resolve_all start ms ps

-- std::erase_if: a captured piece's own Move is dropped, its jump is not.
unfoldable pub drop_moves_of : List ℕ → List Motion → List Motion
drop_moves_of ids [] = []
drop_moves_of ids (m ∷ ms) =
    let others = drop_moves_of ids ms in
    if contains_id m.moving_piece.id ids && not (is_jump m.kind) then others else m ∷ others

unfoldable pub erase_cooldowns : List ℕ → Cooldowns → Cooldowns
unfolding erase_cooldown
erase_cooldowns [] cooldowns = cooldowns
erase_cooldowns (id ∷ ids) cooldowns = erase_cooldowns ids (erase_cooldown id cooldowns)

abbrev pub first_batch : ℕ → Board → RealTimeArbiter → Batch
first_batch ms b a = record {
  board = b;
  cooldowns = age_cooldowns ms a.cooldowns_remaining_ms;
  captured_this_batch = [];
  events = [];
}

abbrev pub arrivals_of : ℕ → RealTimeArbiter → List PendingArrival
arrivals_of ms a = sort_pending (pending_arrivals ms a.active_motions)

abbrev pub after_batch : ℕ → RealTimeArbiter → Batch → RealTimeArbiter
after_batch ms a batch = record {
  active_motions = drop_moves_of batch.captured_this_batch (still_active ms a.active_motions);
  cooldowns_remaining_ms = erase_cooldowns batch.captured_this_batch batch.cooldowns;
  clock_ms = a.clock_ms + ms;
}

unfoldable pub advance_time :
    ℕ → Board → RealTimeArbiter → Result (List ArrivalEvent × Board × RealTimeArbiter)
advance_time ms b a = do
  batch ← resolve_all a.clock_ms ms (arrivals_of ms a) (first_batch ms b a)
  ok (batch.events, batch.board, after_batch ms a batch)
