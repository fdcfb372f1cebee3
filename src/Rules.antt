-- ===== src/Rules.antt =====
-- logic/src/kfc/rules: how each kind of piece moves, and the engine that validates a move.
mod Geometry
mod Pieces
mod Engine
pub mod Walk
pub mod Destinations
pub mod Shapes
pub mod PawnMoves
pub mod Listed
pub mod Validation
unfoldable pub use Geometry.*
unfoldable pub use Pieces.*
unfoldable pub use Engine.*
