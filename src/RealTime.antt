-- ===== src/RealTime.antt =====
-- logic/src/kfc/realtime: motions in flight, how they are made, and how they arrive. A step of time
-- is a number of milliseconds that is not negative; `command_processor.cpp` rejects others.
mod Factory
mod Collision
mod Arbiter
pub mod Observers
pub mod Resting
pub mod Pending
pub mod Quiet
pub mod Timeline
pub mod LostJump
pub mod Safety
unfoldable pub use Factory.*
unfoldable pub use Collision.*
unfoldable pub use Arbiter.*
