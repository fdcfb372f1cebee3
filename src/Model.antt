-- ===== src/Model.antt =====
-- Squares, pieces and their enums: logic/include/kfc/model/{position,piece}.hpp.
pub mod Board
mod Pieces
pub use Pieces.*
