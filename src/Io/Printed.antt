-- ===== src/Io/Printed.antt =====
-- A printed row, read again: its squares' texts, and what they stand for.
use kung_fu_chess.Prelude.{
  ℕ, zero, suc, ◌+◌, ◌-◌, ◌≤◌, ◌<◌, ◌≡◌, refl, ap, ◌∙◌, ◌⊎◌, inl, inr, Bool-cases, false, true,
  ◌==◌, if◌then◌else◌, Bool, Option, none, some, List, [], ◌∷◌, ◌++◌, length, get_or, All,
  All-append, arith,
}
use kung_fu_chess.Model.{
  Piece, PieceColor, white, black, PieceKind, king, queen, rook, bishop, knight, pawn, drone,
}
use kung_fu_chess.Model.Board.{Board, piece_at}
use kung_fu_chess.Io.Tokens.{
  Text, letter_for_kind, letter_for_color, piece_token_text, is_space, scan,
}
use kung_fu_chess.Io.Parser.{Cells, parsed, known, parse_cell, parse_cells}
use kung_fu_chess.Io.Printer.{square_text, print_cells}
use kung_fu_chess.Io.Letters.{text_back}
use kung_fu_chess.Io.Reading.{at_square}
use kung_fu_chess.Io.Contents.{token_of}

-- A text of characters that are neither a newline nor, but for the space, skipped.
abbrev pub Plain : Text → Type 0
Plain s = All (λ c. (c == 10) ≡ false) s

color_seen : (c : PieceColor) → is_space (letter_for_color c) ≡ false
color_seen white = refl
color_seen black = refl

kind_seen : (k : PieceKind) → is_space (letter_for_kind k) ≡ false
unfolding letter_for_kind
kind_seen king = refl
kind_seen queen = refl
kind_seen rook = refl
kind_seen bishop = refl
kind_seen knight = refl
kind_seen pawn = refl
kind_seen drone = refl

color-Plain : (c : PieceColor) → (letter_for_color c == 10) ≡ false
color-Plain white = refl
color-Plain black = refl

kind-Plain : (k : PieceKind) → (letter_for_kind k == 10) ≡ false
kind-Plain k = let seen = kind_seen k in ground arith

square_text-Plain : (o : Option Piece) → Plain (square_text o)
unfolding square_text piece_token_text
square_text-Plain none = (refl, tt)
square_text-Plain (some x) = (color-Plain x.color, (kind-Plain x.kind, tt))

-- Nothing, or a space first.
abbrev Apart : Text → Type 0
Apart s = (s ≡ []) ⊎ ((t : Text) × (s ≡ 32 ∷ t))

scan-Apart : (c : ℕ) (cs s : Text) → Apart s → scan (c ∷ cs) s ≡ (c ∷ cs) ∷ scan [] s
unfolding scan
scan-Apart c cs s (inl e) = rw e refl
scan-Apart c cs s (inr (t, e)) = rw e refl

scan_seen :
    (token : Text) (c : ℕ) (cs : Text)
    → is_space c ≡ false
    → scan token (c ∷ cs) ≡ scan (token ++ c ∷ []) cs
unfolding scan
scan_seen token c cs e = rw (scan, e) refl

scan-square_text :
    (o : Option Piece) (s : Text)
    → Apart s
    → scan [] (square_text o ++ s) ≡ square_text o ∷ scan [] s
unfolding scan square_text piece_token_text
scan-square_text none s a = scan-Apart 46 [] s a
scan-square_text (some x) s a =
    scan_seen [] (letter_for_color x.color) (letter_for_kind x.kind ∷ s) (color_seen x.color)
    ∙ scan_seen (letter_for_color x.color ∷ []) (letter_for_kind x.kind) s (kind_seen x.kind)
    ∙ scan-Apart (letter_for_color x.color) (letter_for_kind x.kind ∷ []) s a

module _ (b : Board) (r : ℕ) where
  -- What stands `left` columns before the row's end, and from there on.
  abbrev occupant : ℕ → Option Piece
  occupant left = piece_at b (at_square r (b.width - suc left))

  abbrev pub row_texts : ℕ → List Text
  row_texts zero = []
  row_texts (suc left) = square_text (occupant left) ∷ row_texts left

  abbrev pub row_cells : ℕ → Cells
  row_cells zero = []
  row_cells (suc left) = token_of (occupant left) ∷ row_cells left

  pub length-row_texts : (left : ℕ) → length (row_texts left) ≡ left
  length-row_texts zero = refl
  length-row_texts (suc left) = ap suc (length-row_texts left)

  pub length-row_cells : (left : ℕ) → length (row_cells left) ≡ left
  length-row_cells zero = refl
  length-row_cells (suc left) = ap suc (length-row_cells left)

  pub get_or-row_cells :
      (left k : ℕ)
      → left ≤ b.width
      → k < left
      → get_or (row_cells left) k none ≡ token_of (piece_at b (at_square r (b.width - left + k)))
  get_or-row_cells zero k x y = absurd (omega (arith, y))
  get_or-row_cells (suc left) zero x y =
      ap (λ n. token_of (piece_at b (at_square r n))) (omega arith)
  get_or-row_cells (suc left) (suc k) x y =
      get_or-row_cells left k (omega (arith, x)) (omega (arith, y))
      ∙ ap (λ n. token_of (piece_at b (at_square r n))) (omega (arith, x))

  print_cells-Apart : (left : ℕ) → left < b.width → Apart (print_cells b r left)
  unfolding print_cells
  print_cells-Apart zero x = inl refl
  print_cells-Apart (suc left) x =
      let later : (b.width - suc left == 0) ≡ false = ground arith in
      inr (square_text (occupant left) ++ print_cells b r left, rw later refl)

  pub scan-print_cells :
      (left : ℕ) → left ≤ b.width → scan [] (print_cells b r left) ≡ row_texts left
  unfolding print_cells scan
  scan-print_cells zero x = refl
  scan-print_cells (suc left) x =
      let squares =
        scan-square_text (occupant left) (print_cells b r left)
          (print_cells-Apart left (omega (arith, x)))
        ∙ ap (λ ts. square_text (occupant left) ∷ ts) (scan-print_cells left (omega (arith, x))) in
      elim (Bool-cases (b.width - suc left == 0)) [ inl e ↦ rw e squares | inr e ↦ rw e squares ]

  pub print_cells-Plain : (left : ℕ) → Plain (print_cells b r left)
  unfolding print_cells
  print_cells-Plain zero = tt
  print_cells-Plain (suc left) = All-append _ _ _ (between (b.width - suc left == 0)) (
      All-append _ (square_text (occupant left)) _ (square_text-Plain (occupant left))
        (print_cells-Plain left))
    where
      between : (first : Bool) → Plain (if first then [] else 32 ∷ [])
      between true = tt
      between false = (refl, tt)

parse_cell-square_text : (o : Option Piece) → parse_cell (square_text o) ≡ parsed (token_of o)
unfolding parse_cell square_text
parse_cell-square_text none = refl
parse_cell-square_text (some x) = ap known (text_back x.color x.kind)

module _ (b : Board) (r : ℕ) where
  pub parse_cells-row_texts :
      (left : ℕ) → parse_cells (row_texts b r left) ≡ parsed (row_cells b r left)
  unfolding parse_cells
  parse_cells-row_texts zero = refl
  parse_cells-row_texts (suc left) =
      rw (parse_cell-square_text (occupant b r left), parse_cells-row_texts left) refl
