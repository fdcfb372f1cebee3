-- ===== src/Io.antt =====
-- logic/src/kfc/io: boards as text.
mod Tokens
mod Parser
mod Printer
pub mod Letters
pub mod Reading
pub mod Contents
pub mod Printed
pub mod MoveLog
pub mod Logged
unfoldable pub use Tokens.*
unfoldable pub use Parser.*
unfoldable pub use Printer.*
