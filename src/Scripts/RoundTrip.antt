-- ===== src/Scripts/RoundTrip.antt =====
-- A printed board, read by lines and parsed: the same rows, and the same pieces on its squares.
use kung_fu_chess.Prelude.{
  ℕ, zero, suc, ◌+◌, ◌-◌, ◌≤◌, ◌<◌, ◌≡◌, refl, sym, ap, ◌∙◌, subst, true, false, ◌==◌,
  if◌then◌else◌, none, List, [], ◌∷◌, ◌++◌, map, length, get_or, All, arith,
}
use mathlib.Core.List.{append-nil, append_assoc}
use kung_fu_chess.Model.{Position}
use kung_fu_chess.Model.Board.{Board, piece_at}
use kung_fu_chess.RealTime.Safety.Invariant.{IsCoherent}
use kung_fu_chess.RealTime.Safety.Setup.{empty_board}
use kung_fu_chess.Io.{
  Text, tokenize, Cells, parsed, of_result, same_widths, parse_rows, build, parse_grid, parse,
  print_cells, print_rows, print,
}
use kung_fu_chess.Io.Reading.{at_square}
use kung_fu_chess.Io.Contents.{token_of, PutsRows, build-PutsRows}
use kung_fu_chess.Io.Printed.{
  Plain, row_texts, row_cells, length-row_texts, length-row_cells, get_or-row_cells,
  scan-print_cells, print_cells-Plain, parse_cells-row_texts,
}
use kung_fu_chess.Scripts.Reader.{get_lines}

-- Two boards with the same rows and columns, and pieces of the same colour and kind on them.
pub record SameGrid (b d : Board) : Type 0 where
  pub coherent : IsCoherent d
  pub same_height : d.height ≡ b.height
  pub same :
      (i j : ℕ)
      → i < b.height
      → j < b.width
      → token_of (piece_at d (at_square i j)) ≡ token_of (piece_at b (at_square i j))

get_lines_step :
    (line : Text) (c : ℕ) (cs : Text)
    → get_lines line (c ∷ cs)
      ≡ (if c == 10 then line ∷ get_lines [] cs else get_lines (line ++ c ∷ []) cs)
unfolding get_lines
get_lines_step [] c cs = refl
get_lines_step (x ∷ line) c cs = refl

-- A line ends at its newline.
get_lines-newline :
    (line s rest : Text)
    → Plain s
    → get_lines line (s ++ 10 ∷ rest) ≡ (line ++ s) ∷ get_lines [] rest
get_lines-newline line [] rest p =
    get_lines_step line 10 rest ∙ ap (λ l. l ∷ get_lines [] rest) (sym (append-nil line))
get_lines-newline line (c ∷ s) rest p =
    get_lines_step line c (s ++ 10 ∷ rest)
    ∙ rw p.0 (
        get_lines-newline (line ++ c ∷ []) s rest p.1
        ∙ ap (λ l. l ∷ get_lines [] rest) (append_assoc line (c ∷ []) s))

parse_grid_reads :
    (row : List Text) (rows : List (List Text)) (w : ℕ) (cells : List Cells)
    → length row ≡ w
    → (w == 0) ≡ false
    → same_widths w (row ∷ rows) ≡ true
    → parse_rows (row ∷ rows) ≡ parsed cells
    → parse_grid (row ∷ rows) ≡ of_result (build w cells)
unfolding parse_grid
parse_grid_reads row rows w cells l e k p =
    let same : same_widths (length row) (row ∷ rows) ≡ true =
      ap (λ n. same_widths n (row ∷ rows)) l ∙ k in
    let there : (length row == 0) ≡ false = ap (λ n. n == 0) l ∙ e in
    rw (there, same, p) (ap (λ n. of_result (build n cells)) l)

module _ (b : Board) where
  lines_from : ℕ → List Text
  lines_from zero = []
  lines_from (suc left) = print_cells b (b.height - suc left) b.width ∷ lines_from left

  get_lines-print_rows : (left : ℕ) → get_lines [] (print_rows b left) ≡ lines_from left
  unfolding print_rows get_lines lines_from
  get_lines-print_rows zero = refl
  get_lines-print_rows (suc left) =
      get_lines-newline [] (print_cells b (b.height - suc left) b.width) (print_rows b left)
        (print_cells-Plain b (b.height - suc left) b.width)
      ∙ ap (λ ls. print_cells b (b.height - suc left) b.width ∷ ls) (get_lines-print_rows left)

  abbrev texts_from : ℕ → List (List Text)
  texts_from zero = []
  texts_from (suc left) = row_texts b (b.height - suc left) b.width ∷ texts_from left

  abbrev cells_from : ℕ → List Cells
  cells_from zero = []
  cells_from (suc left) = row_cells b (b.height - suc left) b.width ∷ cells_from left

  tokenize-lines_from : (left : ℕ) → map tokenize (lines_from left) ≡ texts_from left
  unfolding lines_from tokenize
  tokenize-lines_from zero = refl
  tokenize-lines_from (suc left) =
      rw (scan-print_cells b (b.height - suc left) b.width (omega arith), tokenize-lines_from left)
        refl

  same_widths-texts_from : (left : ℕ) → same_widths b.width (texts_from left) ≡ true
  unfolding same_widths
  same_widths-texts_from zero = refl
  same_widths-texts_from (suc left) =
      rw (same_widths-texts_from left, length-row_texts b (b.height - suc left) b.width)
        (ground arith)

  parse_rows-texts_from : (left : ℕ) → parse_rows (texts_from left) ≡ parsed (cells_from left)
  unfolding parse_rows
  parse_rows-texts_from zero = refl
  parse_rows-texts_from (suc left) =
      rw (parse_cells-row_texts b (b.height - suc left) b.width, parse_rows-texts_from left) refl

  length-cells_from : (left : ℕ) → length (cells_from left) ≡ left
  length-cells_from zero = refl
  length-cells_from (suc left) = ap suc (length-cells_from left)

  widths-cells_from : (left : ℕ) → All (λ cells. length cells ≡ b.width) (cells_from left)
  widths-cells_from zero = tt
  widths-cells_from (suc left) =
      (length-row_cells b (b.height - suc left) b.width, widths-cells_from left)

  get_or-cells_from :
      (left i : ℕ)
      → left ≤ b.height
      → i < left
      → get_or (cells_from left) i [] ≡ row_cells b (b.height - left + i) b.width
  get_or-cells_from zero i x y = absurd (omega (arith, y))
  get_or-cells_from (suc left) zero x y = ap (λ n. row_cells b n b.width) (omega arith)
  get_or-cells_from (suc left) (suc i) x y =
      get_or-cells_from left i (omega (arith, x)) (omega (arith, y))
      ∙ ap (λ n. row_cells b n b.width) (omega (arith, x))

  position : (i j m n : ℕ) → i ≡ m → j ≡ n → at_square i j ≡ at_square m n
  position i j m n e f = rw (e, f) refl

  parse_grid-texts_from :
      (n : ℕ)
      → 0 < n
      → 0 < b.width
      → parse_grid (texts_from n) ≡ of_result (build b.width (cells_from n))
  parse_grid-texts_from zero x y = absurd (omega (arith, x))
  parse_grid-texts_from (suc left) x y =
      parse_grid_reads _ _ b.width (cells_from (suc left))
        (length-row_texts b (b.height - suc left) b.width) (ground (arith, y))
        (same_widths-texts_from (suc left)) (parse_rows-texts_from (suc left))

  PutsRows-SameGrid :
      (d : Board)
      → PutsRows
          (length (cells_from b.height))
          b.width
          0
          (cells_from b.height)
          (empty_board b.width (length (cells_from b.height)))
          d
      → SameGrid b d
  PutsRows-SameGrid d p = record {
    coherent = p.coherent;
    same_height = p.rows_are ∙ length-cells_from b.height;
    same = same;
  }
    where
      same :
          (i j : ℕ)
          → i < b.height
          → j < b.width
          → token_of (piece_at d (at_square i j)) ≡ token_of (piece_at b (at_square i j))
      same i j x y =
          subst
            (λ n.
              token_of (piece_at d (at_square n j))
              ≡ get_or (get_or (cells_from b.height) i []) j none)
            (omega arith) (p.put i j (rw (length-cells_from b.height) x) y)
          ∙ ap (λ r. get_or r j none) (get_or-cells_from b.height i (omega arith) x)
          ∙ get_or-row_cells b (b.height - b.height + i) b.width j (omega arith) y
          ∙ ap (λ (q : Position). token_of (piece_at b q))
              (position (b.height - b.height + i) (b.width - b.width + j) i j (omega arith)
                (omega arith))

-- A board with squares that is printed, and read by lines and parsed, gives a board.
pub parse-print :
    (b : Board)
    → 0 < b.width
    → 0 < b.height
    → (d : Board) × ((parse (get_lines [] (print b)) ≡ parsed d) × SameGrid b d)
unfolding print parse
parse-print b x y =
    let (d, built, puts) =
      build-PutsRows b.width (cells_from b b.height) (widths-cells_from b b.height) in
    (
      d,
      (
        ap (λ ls. parse_grid (map tokenize ls)) (get_lines-print_rows b b.height)
            ∙ ap parse_grid (tokenize-lines_from b b.height)
            ∙ parse_grid-texts_from b b.height y x
            ∙ ap of_result built,
        PutsRows-SameGrid b d puts,
      ),
    )
