-- ===== src/Protocol.antt =====
-- protocol/src/kfc/protocol/json.cpp: messages as text.
mod Library
mod Keys
mod Values
mod Client
mod Host
mod Redaction
mod Scanning
pub mod ValuesBack
pub mod RoundTrip
pub mod HostRoundTrip
pub mod Delivery
pub mod Hiding
pub use Library.*
unfoldable pub use Values.*
unfoldable pub use Client.*
unfoldable pub use Host.*
unfoldable pub use Redaction.*
