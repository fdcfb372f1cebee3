-- ===== src/Server/DisconnectWatch.antt =====
-- server/src/kfc/server/disconnect_watch.cpp.
mod Defs
pub mod Countdown
unfoldable pub use Defs.*
