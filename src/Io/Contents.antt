-- ===== src/Io/Contents.antt =====
-- What stands on a board that is built from a grid of tokens: exactly the grid.
use kung_fu_chess.Prelude.{
  ℕ, zero, suc, ◌+◌, ◌<◌, ◌≡◌, refl, ap, ◌∙◌, subst, ◌⊎◌, inl, inr, true, false, Option, none, some,
  List, [], ◌∷◌, length, get_or, All, Returns, >>=-Returns, arith,
}
use kung_fu_chess.Model.{Piece, position_eq}
use kung_fu_chess.Model.Board.{Board, make_board, piece_at, add_piece-Writes}
use kung_fu_chess.RealTime.Safety.Invariant.{IsCoherent}
use kung_fu_chess.RealTime.Safety.Setup.{empty_board}
use kung_fu_chess.Io.Tokens.{PieceToken}
use kung_fu_chess.Io.Parser.{Cells, new_piece, place_cells, place_rows, build}
use kung_fu_chess.Io.Reading.{at_square, Filling, placed-Filling, skipped-Filling, empty-Filling}

-- Colour and kind of what stands on a square.
abbrev pub token_of : Option Piece → Option PieceToken
token_of none = none
token_of (some x) = some (record { color = x.color; kind = x.kind })

-- Before row `r` and column `c` in reading order.
abbrev Behind : ℕ → ℕ → ℕ → ℕ → Type 0
Behind r c i j = (i < r) ⊎ ((i ≡ r) × (j < c))

-- The rest of a row has been put on the board, which is as it was before that.
record Puts (h w r c : ℕ) (cells : Cells) (b : Board) (v : ℕ × Board) : Type 0 where
  pub filling : Filling h w (r + 1) 0 v.0 v.1
  pub put :
      (k : ℕ)
      → k < length cells
      → token_of (piece_at v.1 (at_square r (c + k))) ≡ get_or cells k none
  pub kept : (i j : ℕ) → Behind r c i j → piece_at v.1 (at_square i j) ≡ piece_at b (at_square i j)

earlier_off : (r c i j : ℕ) → Behind r c i j → position_eq (at_square i j) (at_square r c) ≡ false
earlier_off r c i j h = ground arith

position_self : (r c : ℕ) → position_eq (at_square r c) (at_square r c) ≡ true
position_self r c = ground arith

module _ (h w : ℕ) where
  -- One square more: what is put on it is there when the rest of the row has been put.
  first_Puts :
      (r c : ℕ) (cell : Option PieceToken) (cells : Cells) (b d : Board) (v : ℕ × Board)
      → token_of (piece_at d (at_square r c)) ≡ cell
      → ((i j : ℕ) → Behind r c i j → piece_at d (at_square i j) ≡ piece_at b (at_square i j))
      → Puts h w r (c + 1) cells d v
      → Puts h w r c (cell ∷ cells) b v
  first_Puts r c cell cells b d v here before p = record {
    filling = p.filling;
    put = put;
    kept = λ i j x. p.kept i j (ground arith) ∙ before i j x;
  }
    where
      put :
          (k : ℕ)
          → k < length (cell ∷ cells)
          → token_of (piece_at v.1 (at_square r (c + k))) ≡ get_or (cell ∷ cells) k none
      put zero x =
          subst (λ n. token_of (piece_at v.1 (at_square r n)) ≡ cell) (omega arith)
            (ap token_of (p.kept r c (inr (refl, omega arith))) ∙ here)
      put (suc k) x =
          subst (λ n. token_of (piece_at v.1 (at_square r n)) ≡ get_or cells k none) (omega arith)
            (p.put k (omega (arith, x)))

  place_cells-Puts :
      (r c id : ℕ) (cells : Cells) (b : Board)
      → r < h
      → c + length cells ≡ w
      → Filling h w r c id b
      → Returns (λ (v : ℕ × Board). Puts h w r c cells b v) (place_cells r c id cells b)
  unfolding place_cells
  place_cells-Puts r c id [] b x y f = (
    (id, b),
    refl,
    record {
      filling = record {
        set_up = f.set_up;
        rows = f.rows;
        spans = f.spans;
        free = λ i j a. f.free i j (inl (ground arith));
      };
      put = λ k z. absurd (omega (arith, z));
      kept = λ i j z. refl;
    },
  )
  place_cells-Puts r c id (none ∷ cells) b x y f =
      let (v, e, p) =
        place_cells-Puts r (c + 1) id cells b x (omega (arith, y))
          (skipped-Filling h w r c id b f) in
      (
        v,
        e,
        first_Puts r c none cells b b v (ap token_of (f.free r c (inr (refl, omega arith))))
            (λ i j z. refl) p,
      )
  place_cells-Puts r c id (some t ∷ cells) b x y f =
      >>=-Returns _ (place_cells r (c + 1) (id + 1) cells)
        (add_piece-Writes b (new_piece id r c t) f.set_up.coherent.valid
          (f.spans r c x (omega (arith, y))) (f.free r c (inr (refl, omega arith))))
        (λ d k.
          let (v, e, p) =
            place_cells-Puts r (c + 1) (id + 1) cells d x (omega (arith, y))
              (placed-Filling h w r c id t b d f k) in
          (
            v,
            e,
            first_Puts r c (some t) cells b d v
                (ap token_of (k.square (at_square r c)) ∙ rw (position_self r c) refl)
                (λ i j z. k.square (at_square i j) ∙ rw (earlier_off r c i j z) refl) p,
          ))

-- Rows have been put on the board.
pub record PutsRows (h w r : ℕ) (rows : List Cells) (b d : Board) : Type 0 where
  pub coherent : IsCoherent d
  pub rows_are : d.height ≡ h
  pub put :
      (i j : ℕ)
      → i < length rows
      → j < w
      → token_of (piece_at d (at_square (r + i) j)) ≡ get_or (get_or rows i []) j none
  pub kept : (i j : ℕ) → i < r → piece_at d (at_square i j) ≡ piece_at b (at_square i j)

module _ (h w : ℕ) where
  first-PutsRows :
      (r : ℕ) (cells : Cells) (rows : List Cells) (b d : Board) (v : ℕ × Board)
      → length cells ≡ w
      → Puts h w r 0 cells b v
      → PutsRows h w (r + 1) rows v.1 d
      → PutsRows h w r (cells ∷ rows) b d
  first-PutsRows r cells rows b d v l p q = record {
    coherent = q.coherent;
    rows_are = q.rows_are;
    put = put;
    kept = λ i j x. q.kept i j (omega (arith, x)) ∙ p.kept i j (inl x);
  }
    where
      put :
          (i j : ℕ)
          → i < length (cells ∷ rows)
          → j < w
          → token_of (piece_at d (at_square (r + i) j)) ≡ get_or (get_or (cells ∷ rows) i []) j none
      put zero j x y =
          subst (λ n. token_of (piece_at d (at_square n j)) ≡ get_or cells j none) (omega arith)
            (ap token_of (q.kept r j (omega arith))
              ∙ subst (λ n. token_of (piece_at v.1 (at_square r n)) ≡ get_or cells j none)
                  (omega arith) (p.put j (omega (arith, y, l))))
      put (suc i) j x y =
          subst (λ n. token_of (piece_at d (at_square n j)) ≡ get_or (get_or rows i []) j none)
            (omega arith) (q.put i j (omega (arith, x)) y)

  place_rows-PutsRows :
      (r id : ℕ) (rows : List Cells) (b : Board)
      → r + length rows ≡ h
      → All (λ cells. length cells ≡ w) rows
      → Filling h w r 0 id b
      → Returns (λ d. PutsRows h w r rows b d) (place_rows r id rows b)
  unfolding place_rows
  place_rows-PutsRows r id [] b e a f = (
    b,
    refl,
    record {
      coherent = f.set_up.coherent;
      rows_are = f.rows;
      put = λ i j x y. absurd (omega (arith, x));
      kept = λ i j x. refl;
    },
  )
  place_rows-PutsRows r id (cells ∷ rows) b e a f =
      >>=-Returns _ (λ v. place_rows (r + 1) v.0 rows v.1)
        (place_cells-Puts h w r 0 id cells b (omega (arith, e)) (omega (arith, a.0)) f)
        (λ v p.
          let (d, k, q) =
            place_rows-PutsRows (r + 1) v.0 rows v.1 (omega (arith, e)) a.1 p.filling in
          (d, k, first-PutsRows r cells rows b d v a.0 p q))

-- The board that is built has the grid's rows, and on each square what the grid has there.
pub build-PutsRows :
    (w : ℕ) (rows : List Cells)
    → All (λ cells. length cells ≡ w) rows
    → Returns (λ d. PutsRows (length rows) w 0 rows (empty_board w (length rows)) d) (build w rows)
unfolding build make_board
build-PutsRows w rows a =
    place_rows-PutsRows (length rows) w 0 1 rows (empty_board w (length rows)) (omega arith) a
      (empty-Filling (length rows) w)
