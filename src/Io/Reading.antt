-- ===== src/Io/Reading.antt =====
-- What a text that is read as a board is: every outcome of the parser.
use kung_fu_chess.Prelude.{
  ℕ, suc, ◌+◌, ◌≤◌, ◌<◌, ◌≡◌, refl, subst, ap, ◌∙◌, ◌⊎◌, inl, inr, true, false, ◌==◌, Bool-cases,
  Option, none, some, List, [], ◌∷◌, map, length, All, Result, ok, err, Returns, >>=-Returns, pos,
  arith, length-map,
}
use kung_fu_chess.Model.{Position, position_eq}
use kung_fu_chess.Model.Board.{
  Board, make_board, in_bounds, piece_at, Inside, Writes, add_piece-Writes,
}
use kung_fu_chess.RealTime.Safety.Invariant.{IsCoherent}
use kung_fu_chess.RealTime.Safety.Setup.{
  IsSetUp, empty_board, empty_board-IsSetUp, empty_board-none, placed-IsSetUp,
}
use kung_fu_chess.Io.Tokens.{Text, PieceToken, parse_piece_token, tokenize}
use kung_fu_chess.Io.Parser.{
  Parsed, parsed, refused, thrown, then_parse, of_result, Cells, same_widths, parse_cell,
  parse_cells, parse_rows, new_piece, place_cells, place_rows, build, parse_grid, parse, known,
  is_dot,
}

abbrev pub at_square : ℕ → ℕ → Position
at_square i j = record { row = pos i; col = pos j }

-- In reading order, not before row `r` and column `c`.
abbrev pub Ahead : ℕ → ℕ → ℕ → ℕ → Type 0
Ahead r c i j = (r < i) ⊎ ((i ≡ r) × (c ≤ j))

-- The board of `h` rows and `w` columns while it is filled: everything ahead is free.
pub record Filling (h w : ℕ) (r c id : ℕ) (b : Board) : Type 0 where
  pub set_up : IsSetUp id b
  pub rows : b.height ≡ h
  pub spans : (i j : ℕ) → i < h → j < w → Inside b (at_square i j)
  pub free : (i j : ℕ) → Ahead r c i j → piece_at b (at_square i j) ≡ none

off_square :
    (r c i j : ℕ) → Ahead r (c + 1) i j → position_eq (at_square i j) (at_square r c) ≡ false
off_square r c i j a = ground arith

module _ (h w : ℕ) where
  -- One piece.
  pub placed-Filling :
      (r c id : ℕ) (t : PieceToken) (b d : Board)
      → Filling h w r c id b
      → Writes b (at_square r c) (some (new_piece id r c t)) d
      → Filling h w r (c + 1) (id + 1) d
  placed-Filling r c id t b d f k = record {
    set_up =
        subst (λ n. IsSetUp n d) (omega arith)
          (placed-IsSetUp id b d (new_piece id r c t) f.set_up refl k);
    rows = k.same_height ∙ f.rows;
    spans = λ i j x y. k.bounds (at_square i j) ∙ f.spans i j x y;
    free =
        λ i j a. k.square (at_square i j) ∙ rw (off_square r c i j a) (f.free i j (ground arith));
  }

  pub skipped-Filling : (r c id : ℕ) (b : Board) → Filling h w r c id b → Filling h w r (c + 1) id b
  skipped-Filling r c id b f = record {
    set_up = f.set_up;
    rows = f.rows;
    spans = f.spans;
    free = λ i j a. f.free i j (ground arith);
  }

  place_cells-Filling :
      (r c id : ℕ) (cells : Cells) (b : Board)
      → r < h
      → c + length cells ≡ w
      → Filling h w r c id b
      → Returns (λ (v : ℕ × Board). Filling h w (r + 1) 0 v.0 v.1) (place_cells r c id cells b)
  unfolding place_cells
  place_cells-Filling r c id [] b x y f = (
    (id, b),
    refl,
    record {
      set_up = f.set_up;
      rows = f.rows;
      spans = f.spans;
      free = λ i j a. f.free i j (inl (ground arith));
    },
  )
  place_cells-Filling r c id (none ∷ cells) b x y f =
      place_cells-Filling r (c + 1) id cells b x (omega (arith, y)) (skipped-Filling r c id b f)
  place_cells-Filling r c id (some t ∷ cells) b x y f =
      >>=-Returns _ (place_cells r (c + 1) (id + 1) cells)
        (add_piece-Writes b (new_piece id r c t) f.set_up.coherent.valid
          (f.spans r c x (omega (arith, y))) (f.free r c (inr (refl, omega arith))))
        (λ d k.
          place_cells-Filling r (c + 1) (id + 1) cells d x (omega (arith, y))
            (placed-Filling r c id t b d f k))

  place_rows-Filling :
      (r id : ℕ) (rows : List Cells) (b : Board)
      → r + length rows ≡ h
      → All (λ cells. length cells ≡ w) rows
      → Filling h w r 0 id b
      → Returns (λ d. IsCoherent d × (d.height ≡ h)) (place_rows r id rows b)
  unfolding place_rows
  place_rows-Filling r id [] b e a f = (b, refl, (f.set_up.coherent, f.rows))
  place_rows-Filling r id (cells ∷ rows) b e a f =
      >>=-Returns _ (λ v. place_rows (r + 1) v.0 rows v.1)
        (place_cells-Filling r 0 id cells b (omega (arith, e)) (omega (arith, a.0)) f)
        (λ v k. place_rows-Filling (r + 1) v.0 rows v.1 (omega (arith, e)) a.1 k)

  pub empty-Filling : Filling h w 0 0 1 (empty_board w h)
  unfolding in_bounds
  empty-Filling = record {
    set_up = empty_board-IsSetUp w h 1;
    rows = refl;
    spans = λ i j x y. ground (arith, x, y);
    free = λ i j a. empty_board-none w h (at_square i j);
  }

build-IsCoherent :
    (w : ℕ) (rows : List Cells)
    → All (λ cells. length cells ≡ w) rows
    → Returns (λ d. IsCoherent d × (d.height ≡ length rows)) (build w rows)
unfolding build make_board
build-IsCoherent w rows a =
    place_rows-Filling (length rows) w 0 1 rows (empty_board w (length rows)) (omega arith) a
      (empty-Filling (length rows) w)

-- Of what is parsed the predicate holds; a refusal is fine, any other exception is not.
abbrev pub Gives : {A : Type 0} → (A → Type 0) → Parsed A → Type 0
Gives P (parsed a) = P a
Gives P (refused e) = Unit
Gives P (thrown e) = ⊥

then_parse-Gives :
    {A B : Type 0} (P : A → Type 0) (Q : B → Type 0) (x : Parsed A) (f : A → Parsed B)
    → Gives P x
    → ((a : A) → P a → Gives Q (f a))
    → Gives Q (then_parse x f)
then_parse-Gives P Q (parsed a) f g h = h a g
then_parse-Gives P Q (refused e) f g h = tt
then_parse-Gives P Q (thrown e) f g h = g

parse_cell-Gives : (token : Text) → Gives (λ c. Unit) (parse_cell token)
unfolding parse_cell
parse_cell-Gives token = elim (Bool-cases (is_dot token)) [
  | inl e ↦ rw e tt
  | inr e ↦ rw e (known-Gives (parse_piece_token token))
]
  where
    known-Gives : (o : Option PieceToken) → Gives (λ c. Unit) (known o)
    known-Gives none = tt
    known-Gives (some t) = tt

parse_cells-Gives :
    (tokens : List Text) → Gives (λ cells. length cells ≡ length tokens) (parse_cells tokens)
unfolding parse_cells
parse_cells-Gives [] = refl
parse_cells-Gives (token ∷ tokens) =
    then_parse-Gives (λ c. Unit) _ (parse_cell token) _ (parse_cell-Gives token)
      (λ cell _.
        then_parse-Gives (λ cells. length cells ≡ length tokens) _ (parse_cells tokens) _
          (parse_cells-Gives tokens) (λ cells e. ap suc e))

abbrev Widths : ℕ → List (List Text) → List Cells → Type 0
Widths w rows grid = All (λ cells. length cells ≡ w) grid × (length grid ≡ length rows)

parse_rows-Gives :
    (w : ℕ) (rows : List (List Text))
    → same_widths w rows ≡ true
    → Gives (Widths w rows) (parse_rows rows)
unfolding parse_rows same_widths
parse_rows-Gives w [] e = (tt, refl)
parse_rows-Gives w (row ∷ rows) e =
    then_parse-Gives (λ cells. length cells ≡ length row) _ (parse_cells row) _
      (parse_cells-Gives row)
      (λ cells k.
        then_parse-Gives (Widths w rows) _ (parse_rows rows) _
          (parse_rows-Gives w rows (ground arith))
          (λ grid g. ((k ∙ ground arith, g.0), ap suc g.1)))

abbrev pub Reads : ℕ → Board → Type 0
Reads h b = IsCoherent b × (b.height ≡ h)

built-Gives : (h : ℕ) (x : Result Board) → Returns (Reads h) x → Gives (Reads h) (of_result x)
built-Gives h (ok b) (d, e, r) = subst (λ z. Reads h z) (cc) r
built-Gives h (err f) (d, e, r) = cc

parse_grid-Gives : (grid : List (List Text)) → Gives (Reads (length grid)) (parse_grid grid)
unfolding parse_grid
parse_grid-Gives [] = tt
parse_grid-Gives (row ∷ rows) = elim (Bool-cases (length row == 0)) [
  | inl e ↦ rw e tt
  | inr e ↦ elim (Bool-cases (same_widths (length row) (row ∷ rows))) [
    | inr k ↦ rw (e, k) tt
    | inl k ↦
        rw (e, k)
          (then_parse-Gives (Widths (length row) (row ∷ rows)) _ (parse_rows (row ∷ rows)) _
            (parse_rows-Gives (length row) (row ∷ rows) k)
            (λ cells g. built-Gives (suc (length rows)) (build (length row) cells) (
              subst (λ n. Returns (Reads n) (build (length row) cells)) g.1
                (build-IsCoherent (length row) cells g.0))))
  ]
]

-- Whatever the lines, the parser either refuses them with a ParseError or returns a coherent board
-- with a row for each line; no exception of the board escapes it.
pub parse-Gives : (lines : List Text) → Gives (Reads (length lines)) (parse lines)
unfolding parse
parse-Gives lines =
    subst (λ n. Gives (Reads n) (parse_grid (map tokenize lines))) (length-map lines tokenize)
      (parse_grid-Gives (map tokenize lines))
