-- ===== src/Server/ClientSession.antt =====
-- server/src/kfc/server/client_session.cpp.
mod Defs
mod Handling
pub mod Following
pub mod Steps
pub mod Order
unfoldable pub use Defs.*
unfoldable pub use Handling.*
