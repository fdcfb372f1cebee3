-- ===== src/RealTime/Observers.antt =====
-- game_over_observer.cpp, score_observer.cpp and piece_value_provider.cpp.
mod GameOver
mod Score
unfoldable pub use GameOver.*
unfoldable pub use Score.*
