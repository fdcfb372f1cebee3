-- ===== src/Model/Board.antt =====
-- logic/src/kfc/model/board.cpp. The vector `cells_` has width * height entries from the
-- constructor on, so no read or write below leaves it.
mod Defs
mod Laws
mod Effects
mod Contract
unfoldable pub use Defs.*
pub use Laws.*
pub use Effects.*
pub use Contract.*
