-- ===== src/RealTime/Arbiter.antt =====
-- real_time_arbiter.cpp. The arbiter and the board that it holds by reference are passed along
-- together.
mod State
mod Arrivals
mod Steps
unfoldable pub use State.*
unfoldable pub use Arrivals.*
unfoldable pub use Steps.*
