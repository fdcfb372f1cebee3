-- ===== src/Server/RateLimiter.antt =====
-- server/src/kfc/server/rate_limiter.cpp.
mod Defs
pub mod Sweeping
pub mod Budget
unfoldable pub use Defs.*
