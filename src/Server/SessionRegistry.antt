-- ===== src/Server/SessionRegistry.antt =====
-- server/src/kfc/server/session_registry.cpp.
mod Defs
pub mod Leases
unfoldable pub use Defs.*
