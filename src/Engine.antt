-- ===== src/Engine.antt =====
-- logic/src/kfc/engine: the command boundary of a game.
mod Core
pub mod Requests
pub mod Endings
pub mod Safety
unfoldable pub use Core.*
