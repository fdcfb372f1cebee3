-- ===== src/RealTime/Safety.antt =====
-- No arrival throws: the invariant that ties the motions in flight to the board, kept by every
-- arrival of `RealTimeArbiter::resolve_arrival` and by `advance_time`.
pub mod Invariant
pub mod Arrival
pub mod Upkeep
pub mod Sorting
mod Batch
pub mod Ticks
pub mod Setup
