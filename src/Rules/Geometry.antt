-- ===== src/Rules/Geometry.antt =====
-- logic/src/kfc/rules/movement_geometry.cpp. The walk of a slide runs on fuel; the height plus the
-- width of the board is more than any slide can take.
use kung_fu_chess.Prelude.{
  ℕ, zero, suc, ◌+◌, Bool, not, if◌then◌else◌, ℤ, ◌+ℤ◌, none, some, List, [], ◌∷◌, ◌++◌,
}
use kung_fu_chess.Model.{Position, Piece, PieceColor, color_eq}
use kung_fu_chess.Model.Board.{Board, in_bounds, piece_at}

-- A direction or an offset: rows, columns.
abbrev pub Offset : Type 0
Offset = ℤ × ℤ

unfoldable pub shift : Position → Offset → Position
shift p (dr, dc) = record { row = p.row +ℤ dr; col = p.col +ℤ dc }

-- The `while` loop of `sliding_destinations`, with what it pushes.
unfoldable pub slide : ℕ → Board → PieceColor → Offset → Position → List Position
slide zero b color d current = []
slide (suc fuel) b color d current =
    let rest = slide fuel b color d (shift current d) in
    if in_bounds b current
    then (elim (piece_at b current) [
      | none ↦ current ∷ rest
      | some occupant ↦ if color_eq occupant.color color then [] else current ∷ []
    ])
    else []

abbrev pub slide_fuel : Board → ℕ
slide_fuel b = b.height + b.width + 1

unfoldable pub sliding_destinations : Board → Piece → List Offset → List Position
sliding_destinations b piece [] = []
sliding_destinations b piece (d ∷ directions) =
    slide (slide_fuel b) b piece.color d (shift piece.cell d)
    ++ sliding_destinations b piece directions

-- The tests of one round of `stepping_destinations`.
unfoldable pub may_step : Board → PieceColor → Position → Bool
may_step b color candidate =
    if in_bounds b candidate
    then (elim (piece_at b candidate) [
      | none ↦ Bool.true
      | some occupant ↦ not (color_eq occupant.color color)
    ])
    else Bool.false

unfoldable pub stepping_destinations : Board → Piece → List Offset → List Position
unfolding may_step
stepping_destinations b piece [] = []
stepping_destinations b piece (o ∷ offsets) =
    let rest = stepping_destinations b piece offsets in
    if may_step b piece.color (shift piece.cell o) then shift piece.cell o ∷ rest else rest
