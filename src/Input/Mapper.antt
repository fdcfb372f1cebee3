-- ===== src/Input/Mapper.antt =====
-- board_mapper.cpp, and which pixels make which square.
use kung_fu_chess.Prelude.{
  ℕ, ◌+◌, ◌*◌, ◌/◌, ◌≤◌, ◌<◌, ◌≡◌, ◌↔◌, ◌&&◌, ltb, if◌then◌else◌, Option, none, some, ℤ, pos,
  negsuc, arith,
}
use kung_fu_chess.Model.{Position}

pub record BoardMapper : Type 0 where
  pub board_width : ℕ
  pub board_height : ℕ

abbrev pub cell_size_pixels : ℕ
cell_size_pixels = 100

unfoldable pub pixel_to_cell : BoardMapper → ℤ → ℤ → Option Position
pixel_to_cell b (pos x) (pos y) =
    let col = x / cell_size_pixels in
    let row = y / cell_size_pixels in
    if ltb col b.board_width && ltb row b.board_height
    then some (record { row = pos row; col = pos col })
    else none
pixel_to_cell b _ _ = none

-- The pixel lies in the square of this row and column, and the square on the board.
abbrev pub Covers : BoardMapper → ℕ → ℕ → ℤ → ℤ → Type 0
Covers b row col (pos x) (pos y) =
    (col < b.board_width)
    × (row < b.board_height)
    × (col * 100 ≤ x)
    × (x < col * 100 + 100)
    × (row * 100 ≤ y)
    × (y < row * 100 + 100)
Covers b row col _ _ = ⊥

-- A pixel is mapped to a square exactly when the square lies on the board and the pixel in it; a
-- negative pixel is mapped to none.
pixel_to_cell_lem :
    (b : BoardMapper) (x y : ℤ) (row col : ℕ)
    → (pixel_to_cell b x y ≡ some (record { row = pos row; col = pos col })) ↔ Covers b row col x y
unfolding pixel_to_cell
pixel_to_cell_lem b (pos x) (pos y) row col = ground arith
pixel_to_cell_lem b (pos x) (negsuc y) row col = (λ e. cc, λ h. absurd h)
pixel_to_cell_lem b (negsuc x) (pos y) row col = (λ e. cc, λ h. absurd h)
pixel_to_cell_lem b (negsuc x) (negsuc y) row col = (λ e. cc, λ h. absurd h)
