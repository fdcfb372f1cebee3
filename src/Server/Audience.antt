-- ===== src/Server/Audience.antt =====
-- server/src/kfc/server/match_audience.cpp.
mod Defs
pub mod Watchers
unfoldable pub use Defs.*
