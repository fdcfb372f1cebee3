-- ===== src/Server/Match.antt =====
-- server/src/kfc/server/match.cpp.
mod State
mod Apply
mod Ticking
mod Members
mod Cases
pub mod Reports
mod Commanded
pub mod Latches
pub mod Commands
pub mod Steady
pub mod Safety
pub mod Seating
mod Frames
pub mod SeatsTicked
pub mod SeatsKept
pub mod Verdicts
mod Counting
pub mod Forfeit
unfoldable pub use State.*
unfoldable pub use Apply.*
unfoldable pub use Ticking.*
unfoldable pub use Members.*
