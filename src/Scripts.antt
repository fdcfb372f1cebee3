-- ===== src/Scripts.antt =====
-- logic/src/kfc/texttests, logic/apps/kfc_app and logic/src/kfc/audio: a game that is played from a script.
mod Reader
mod Game
mod Bus
mod Processor
mod Numbers
mod Playing
pub mod Turns
pub mod Telling
pub mod Sounds
pub mod Endings
pub mod RoundTrip
unfoldable pub use Reader.*
unfoldable pub use Game.*
unfoldable pub use Bus.*
unfoldable pub use Processor.*
