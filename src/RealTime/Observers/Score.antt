-- ===== src/RealTime/Observers/Score.antt =====
-- score_observer.cpp over the standard values of piece_value_provider.cpp.
use kung_fu_chess.Prelude.{ℕ, ◌+◌, ◌≡◌, none, some, List, [], ◌∷◌, arith, if◌then◌else◌}
use kung_fu_chess.Model.{
  PieceColor, PieceKind, white, black, king, queen, rook, bishop, knight, pawn, drone, color_eq,
}
use kung_fu_chess.RealTime.Collision.{ArrivalEvent}

unfoldable pub value_of : PieceKind → ℕ
value_of pawn = 1
value_of knight = 3
value_of bishop = 3
value_of rook = 5
value_of queen = 9
value_of king = 0
value_of drone = 1

pub record ScoreObserver : Type 0 where
  pub white_score : ℕ
  pub black_score : ℕ

abbrev pub add_score : PieceColor → ℕ → ScoreObserver → ScoreObserver
add_score white v o = record o { white_score = o.white_score + v }
add_score black v o = record o { black_score = o.black_score + v }

module _ (values : PieceKind → ℕ) where
  unfoldable pub tally : ScoreObserver → ArrivalEvent → ScoreObserver
  tally o e = elim e.captured_piece [
    | none ↦ o
    | some p ↦ add_score e.moved_piece.color (values p.kind) o
  ]

  abbrev pub score : PieceColor → ScoreObserver → ℕ
  score white o = o.white_score
  score black o = o.black_score

  unfoldable pub tally_all : ScoreObserver → List ArrivalEvent → ScoreObserver
  unfolding tally
  tally_all o [] = o
  tally_all o (e ∷ es) = tally_all (tally o e) es

  -- What one arrival is worth to a side.
  abbrev pub worth : PieceColor → ArrivalEvent → ℕ
  worth c e = elim e.captured_piece [
    | none ↦ 0
    | some p ↦ if color_eq e.moved_piece.color c then values p.kind else 0
  ]

  abbrev pub worth_all : PieceColor → List ArrivalEvent → ℕ
  worth_all c [] = 0
  worth_all c (e ∷ es) = worth c e + worth_all c es

  tally-worth :
      (c : PieceColor) (o : ScoreObserver) (e : ArrivalEvent)
      → score c (tally o e) ≡ score c o + worth c e
  unfolding tally
  tally-worth c o e = ground arith

  -- Over any arrivals, each side's score grows by the values of the pieces that its own moves
  -- captured, and by nothing else.
  tally_all-worth :
      (c : PieceColor) (o : ScoreObserver) (es : List ArrivalEvent)
      → score c (tally_all o es) ≡ score c o + worth_all c es
  unfolding tally_all
  tally_all-worth c o [] = omega arith
  tally_all-worth c o (e ∷ es) = omega (arith, tally_all-worth c (tally o e) es, tally-worth c o e)
