-- ===== src/Server/MatchScheduler.antt =====
-- server/src/kfc/server/match_scheduler.cpp.
mod Defs
mod Choosing
mod Counting
pub mod Owned
pub mod Ownership
unfoldable pub use Defs.*
