-- ===== src/Server.antt =====
-- server: the matches that a server plays, and the pieces they are made of.
pub mod DisconnectWatch
pub mod Audience
mod Messages
pub mod RateLimiter
pub mod SessionRegistry
pub mod AuthTokens
pub mod MatchScheduler
pub mod Match
pub mod Rooms
pub mod ClientSession
unfoldable pub use Messages.*
