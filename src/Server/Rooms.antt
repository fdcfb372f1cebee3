-- ===== src/Server/Rooms.antt =====
-- server/src/kfc/server/room_manager.cpp.
mod State
mod Waiting
mod Opening
mod Joining
mod Leaving
pub mod Closest
pub mod Invariant
pub mod Entries
pub mod Staying
pub mod ByName
pub mod Opened
mod Reserved
pub mod Pairing
pub mod Naming
pub mod Removing
pub mod Departing
pub mod Serving
unfoldable pub use State.*
unfoldable pub use Waiting.*
unfoldable pub use Opening.*
unfoldable pub use Joining.*
unfoldable pub use Leaving.*
