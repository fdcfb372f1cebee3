-- ===== src/Model/Board/Laws.antt =====
-- A board as a function from squares to pieces: what a write does to each square.
use kung_fu_chess.Prelude.{
  ℕ, zero, suc, ◌+◌, ◌*◌, ◌<◌, ◌≡◌, ◌≢◌, refl, sym, ap, ◌∙◌, true, Bool-cases, pos_part,
  if◌then◌else◌, Option, none, some, List, [], ◌∷◌, length, get_or, set, length-set,
  length-replicate, replicate, pos, arith, inl, inr,
}
use kung_fu_chess.Model.Pieces.{Position, Piece, position_eq, position_eq_iff}
use kung_fu_chess.Model.Board.Defs.{Board, in_bounds, index, cell_at, write_cell, piece_at}

abbrev pub IsValid : Board → Type 0
IsValid b = length b.cells ≡ b.width * b.height

-- The square lies on the board.
abbrev pub Inside : Board → Position → Type 0
Inside b p = in_bounds b p ≡ true

get_or-set_self {ℓ} :
    {A : Type ℓ} (xs : List A) (i : ℕ) (v d : A) → i < length xs → get_or (set xs i v) i d ≡ v
get_or-set_self [] i v d h = elim h [ ]
get_or-set_self (x ∷ xs) zero v d h = refl
get_or-set_self (x ∷ xs) (suc i) v d h = get_or-set_self xs i v d (omega arith)

get_or-set_ne {ℓ} :
    {A : Type ℓ} (xs : List A) (i j : ℕ) (v d : A) → i ≢ j → get_or (set xs i v) j d ≡ get_or xs j d
get_or-set_ne [] i j v d h = refl
get_or-set_ne (x ∷ xs) zero zero v d h = absurd (h refl)
get_or-set_ne (x ∷ xs) zero (suc j) v d h = refl
get_or-set_ne (x ∷ xs) (suc i) zero v d h = refl
get_or-set_ne (x ∷ xs) (suc i) (suc j) v d h = get_or-set_ne xs i j v d (λ e. h (ap suc e))

grid_lt : (w h r c : ℕ) → r < h → c < w → r * w + c < w * h
grid_lt w h r c p q = grind arith

grid_lt_grid : (w r s c d : ℕ) → c < w → r < s → r * w + c < s * w + d
grid_lt_grid w r s c d p q = grind arith

grid_inj : (w r s c d : ℕ) → c < w → d < w → r * w + c ≡ s * w + d → (r ≡ s) × (c ≡ d)
grid_inj w r s c d p q e = ground (arith, grid_lt_grid w r s c d, grid_lt_grid w s r d c)

index-lt : (b : Board) (p : Position) → Inside b p → index b p < b.width * b.height
unfolding in_bounds index
index-lt b p i = ground (arith, grid_lt b.width b.height (pos_part p.row) (pos_part p.col))

index_inj : (b : Board) (p q : Position) → Inside b p → Inside b q → index b p ≡ index b q → p ≡ q
unfolding in_bounds index
index_inj b p q i j e =
    ground
      (arith, grid_inj b.width (pos_part p.row) (pos_part q.row) (pos_part p.col) (pos_part q.col))

module _ (b : Board) (p : Position) (v : Option Piece) where
  pub in_bounds-write_cell : (q : Position) → in_bounds (write_cell b p v) q ≡ in_bounds b q
  unfolding in_bounds write_cell
  in_bounds-write_cell q = refl

  pub write_cell-IsValid : IsValid b → IsValid (write_cell b p v)
  unfolding write_cell
  write_cell-IsValid valid = length-set b.cells (index b p) v ∙ valid

  cell_at-write_self : IsValid b → Inside b p → cell_at (write_cell b p v) p ≡ v
  unfolding cell_at write_cell
  cell_at-write_self valid i =
      get_or-set_self b.cells (index b p) v none (rw valid (index-lt b p i))

  cell_at-write_ne :
      (q : Position) → Inside b p → Inside b q → q ≢ p → cell_at (write_cell b p v) q ≡ cell_at b q
  unfolding cell_at write_cell
  cell_at-write_ne q i j ne =
      get_or-set_ne b.cells (index b p) (index b q) v none (λ e. ne (sym (index_inj b p q i j e)))

  -- A write changes the square that it names and no other.
  pub piece_at-write_cell :
      (q : Position)
      → IsValid b
      → Inside b p
      → piece_at (write_cell b p v) q ≡ (if position_eq q p then v else piece_at b q)
  unfolding piece_at
  piece_at-write_cell q valid i = elim (Bool-cases (position_eq q p)) [
    | inl e ↦
        let same : q ≡ p = (position_eq_iff q p).0 e in
        rw (e, in_bounds-write_cell q, same, i) (cell_at-write_self valid i)
    | inr e ↦ elim (Bool-cases (in_bounds b q)) [
      | inl j ↦
          rw (e, in_bounds-write_cell q, j)
            (cell_at-write_ne q i j (λ s. cc (e, (position_eq_iff q p).1 s)))
      | inr j ↦ rw (e, in_bounds-write_cell q, j)
    ]
  ]

-- An occupied square lies on the board.
pub piece_at-Inside : (b : Board) (p : Position) {x : Piece} → piece_at b p ≡ some x → Inside b p
unfolding piece_at
piece_at-Inside b p e = ground arith

pub cell_at-piece_at : (b : Board) (p : Position) → Inside b p → cell_at b p ≡ piece_at b p
unfolding piece_at
cell_at-piece_at b p i = rw i

-- On the board the fields of a square are a row and a column of the grid.
pub Inside-coords :
    (b : Board) (p : Position)
    → Inside b p
    → (p.row ≡ pos (pos_part p.row))
      × (p.col ≡ pos (pos_part p.col))
      × (pos_part p.row < b.height)
      × (pos_part p.col < b.width)
unfolding in_bounds
Inside-coords b p i = (ground arith, ground arith, ground arith, ground arith)

pub make_board-IsValid :
    (w h : ℕ) → IsValid (record { width = w; height = h; cells = replicate (w * h) none })
make_board-IsValid w h = length-replicate (w * h) none
