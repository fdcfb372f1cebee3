-- ===== src/Rules/Shapes.antt =====
-- The moves of the stepping pieces by distance, in place of the offset tables of the source.
use kung_fu_chess.Prelude.{
  ◌+◌, ◌≡◌, ◌↔◌, ◌⊎◌, true, ℤ, pos, ◌-ℤ◌, abs, +ℤ_sub, sub_+ℤ, List, ◌∈◌, arith, max, sym,
}
use kung_fu_chess.Model.{Position, Piece}
use kung_fu_chess.Model.Board.{Board}
use kung_fu_chess.Rules.Geometry.{Offset, shift, may_step, stepping_destinations}
use kung_fu_chess.Rules.Pieces.{
  king_rule, knight_rule, drone_rule, legal_destinations, king_offsets, knight_offsets,
  drone_offsets,
}
use kung_fu_chess.Rules.Destinations.{mem-stepping_destinations}

king_shape : (x y : ℤ) → ((x, y) ∈ king_offsets) ↔ (max (abs x) (abs y) ≡ 1)
king_shape x y = (ground arith, ground arith)

knight_shape :
    (x y : ℤ) → ((x, y) ∈ knight_offsets) ↔ ((abs x ≡ 1) × (abs y ≡ 2) ⊎ (abs x ≡ 2) × (abs y ≡ 1))
knight_shape x y = (ground arith, ground arith)

drone_shape :
    (x y : ℤ)
    → ((x, y) ∈ drone_offsets)
      ↔ (((x ≡ pos 0) ⊎ (y ≡ pos 0)) × ((abs x + abs y ≡ 1) ⊎ (abs x + abs y ≡ 2)))
drone_shape x y = (ground arith, ground arith)

-- Rows and columns from the piece's own square to `p`.
abbrev pub rows_to : Piece → Position → ℤ
rows_to piece p = p.row -ℤ piece.cell.row

abbrev pub cols_to : Piece → Position → ℤ
cols_to piece p = p.col -ℤ piece.cell.col

module _ (b : Board) (piece : Piece) (p : Position) where
  steps_iff :
      (os : List Offset) (Shape : ℤ → ℤ → Type 0)
      → ((x y : ℤ) → ((x, y) ∈ os) ↔ Shape x y)
      → (p ∈ stepping_destinations b piece os)
        ↔ (Shape (rows_to piece p) (cols_to piece p) × (may_step b piece.color p ≡ true))
  unfolding shift
  steps_iff os Shape shape = (
    λ m.
        let s = (mem-stepping_destinations b piece p os).0 m in
        let e = s.2 in
        (
          rw (e, sub_+ℤ piece.cell.row s.0.0, sub_+ℤ piece.cell.col s.0.1)
              ((shape s.0.0 s.0.1).0 s.1),
          s.3,
        ),
    λ h. (mem-stepping_destinations b piece p os).1 (
      (rows_to piece p, cols_to piece p),
      (shape (rows_to piece p) (cols_to piece p)).1 h.0,
      λ i. record {
        row = sym (+ℤ_sub piece.cell.row p.row) i;
        col = sym (+ℤ_sub piece.cell.col p.col) i;
      },
      h.1,
    ),
  )

  -- A king goes to any square one away in a row, a column or both, that is on the board and holds
  -- no piece of its colour; and nowhere else.
  king_destinations : (p ∈ legal_destinations king_rule b piece) ↔ (
      (max (abs (rows_to piece p)) (abs (cols_to piece p)) ≡ 1) × (may_step b piece.color p ≡ true))
  unfolding legal_destinations
  king_destinations = steps_iff king_offsets (λ x y. max (abs x) (abs y) ≡ 1) king_shape

  -- A knight goes one away on one axis and two on the other, whatever lies between.
  knight_destinations : (p ∈ legal_destinations knight_rule b piece) ↔ (
      ((abs (rows_to piece p) ≡ 1) × (abs (cols_to piece p) ≡ 2)
        ⊎ (abs (rows_to piece p) ≡ 2) × (abs (cols_to piece p) ≡ 1))
      × (may_step b piece.color p ≡ true))
  unfolding legal_destinations
  knight_destinations =
      steps_iff knight_offsets (λ x y. (abs x ≡ 1) × (abs y ≡ 2) ⊎ (abs x ≡ 2) × (abs y ≡ 1))
        knight_shape

  -- A drone goes one or two squares along a row or a column, and may jump over what lies between.
  drone_destinations : (p ∈ legal_destinations drone_rule b piece) ↔ (
      (((rows_to piece p ≡ pos 0) ⊎ (cols_to piece p ≡ pos 0))
        × ((abs (rows_to piece p) + abs (cols_to piece p) ≡ 1)
            ⊎ (abs (rows_to piece p) + abs (cols_to piece p) ≡ 2)))
      × (may_step b piece.color p ≡ true))
  unfolding legal_destinations
  drone_destinations =
      steps_iff drone_offsets
        (λ x y. ((x ≡ pos 0) ⊎ (y ≡ pos 0)) × ((abs x + abs y ≡ 1) ⊎ (abs x + abs y ≡ 2)))
        drone_shape

  -- A king goes to any square one away in a row, a column or both; a knight one away on one axis and two
  -- on the other, whatever lies between; and a drone one or two squares along a row or a column, over
  -- what lies between: each to the squares on the board that hold no piece of its colour, and nowhere else.
  pub stepper_destinations :
      ((p ∈ legal_destinations king_rule b piece) ↔ (
        (max (abs (rows_to piece p)) (abs (cols_to piece p)) ≡ 1)
        × (may_step b piece.color p ≡ true)))
      × ((p ∈ legal_destinations knight_rule b piece) ↔ (
          ((abs (rows_to piece p) ≡ 1) × (abs (cols_to piece p) ≡ 2)
            ⊎ (abs (rows_to piece p) ≡ 2) × (abs (cols_to piece p) ≡ 1))
          × (may_step b piece.color p ≡ true)))
      × ((p ∈ legal_destinations drone_rule b piece) ↔ (
          (((rows_to piece p ≡ pos 0) ⊎ (cols_to piece p ≡ pos 0))
            × ((abs (rows_to piece p) + abs (cols_to piece p) ≡ 1)
                ⊎ (abs (rows_to piece p) + abs (cols_to piece p) ≡ 2)))
          × (may_step b piece.color p ≡ true)))
  stepper_destinations = (king_destinations, knight_destinations, drone_destinations)
