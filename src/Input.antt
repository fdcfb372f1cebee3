-- ===== src/Input.antt =====
-- logic/src/kfc/input: from pixels to squares, and from clicks to requests.
mod Mapper
mod Clicking
pub mod Selection
unfoldable pub use Mapper.*
unfoldable pub use Clicking.*
