-- ===== src/RealTime/Safety/Invariant.antt =====
-- The invariant of the board and the motions in flight.
use kung_fu_chess.Prelude.{ℕ, ◌≡◌, ◌≢◌, true, false, not, ◌||◌, some, List, [], ◌∷◌, All}
use kung_fu_chess.Model.{Position, Piece, is_airborne}
use kung_fu_chess.Model.Board.{Board, piece_at, IsValid, Inside}
use kung_fu_chess.RealTime.Factory.{Motion, move, jump_in_place, is_jump}
use kung_fu_chess.RealTime.Arbiter.{RealTimeArbiter, contains_id}

-- Pieces know their own squares, and no id stands on two squares.
pub record IsCoherent (b : Board) : Type 0 where
  pub valid : IsValid b
  pub placed : (q : Position) (x : Piece) → piece_at b q ≡ some x → x.cell ≡ q
  pub unique :
      (p q : Position) (x y : Piece)
      → piece_at b p ≡ some x
      → piece_at b q ≡ some y
      → x.id ≡ y.id
      → p ≡ q

-- A motion runs between squares of the board, and its piece stands nowhere but on the source. A
-- Move's piece does stand there, and not in the air; a jump's may have been passed through.
pub record IsAnchored (b : Board) (m : Motion) : Type 0 where
  pub source_inside : Inside b m.source
  pub destination_inside : Inside b m.destination
  pub in_place : m.kind ≡ jump_in_place → m.destination ≡ m.source
  pub nowhere_else :
      (q : Position) (x : Piece) → piece_at b q ≡ some x → x.id ≡ m.moving_piece.id → q ≡ m.source
  pub present :
      m.kind ≡ move
      → (x : Piece) × (piece_at b m.source ≡ some x)
        × (x.id ≡ m.moving_piece.id)
        × (is_airborne x.state ≡ false)

abbrev pub Fresh : ℕ → List Motion → Type 0
Fresh id = All (λ m. m.moving_piece.id ≢ id)

abbrev pub Distinct : List Motion → Type 0
Distinct [] = Unit {0}
Distinct (m ∷ ms) = Fresh m.moving_piece.id ms × Distinct ms

-- The motion survives the captures of a batch: it is a jump, or its piece was not captured.
abbrev pub Survives : List ℕ → Motion → Type 0
Survives ids m = (is_jump m.kind || not (contains_id m.moving_piece.id ids)) ≡ true

pub record IsSafe (b : Board) (a : RealTimeArbiter) : Type 0 where
  pub board : IsCoherent b
  pub motions : All (IsAnchored b) a.active_motions
  pub distinct : Distinct a.active_motions
