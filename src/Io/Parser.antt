-- ===== src/Io/Parser.antt =====
-- board_parser.cpp.
use kung_fu_chess.Prelude.{
  ℕ, ◌+◌, Bool, true, false, ◌&&◌, ◌==◌, if◌then◌else◌, Option, none, some, List, [], ◌∷◌, map,
  length, Failure, Result, ok, err, ◌>>=◌, pos,
}
use kung_fu_chess.Model.{Piece, idle}
use kung_fu_chess.Model.Board.{Board, make_board, add_piece}
use kung_fu_chess.Io.Tokens.{Text, PieceToken, parse_piece_token, tokenize}

pub data ParseError : Type 0 where
  empty_board row_width_mismatch unknown_token : ParseError
  missing_board_section missing_commands_section : ParseError
  invalid_argument_count invalid_number unknown_command : ParseError

-- A value, a ParseError, or another exception of the code below.
pub data Parsed (A : Type 0) : Type 0 where
  parsed : A → Parsed A
  refused : ParseError → Parsed A
  thrown : Failure → Parsed A

abbrev pub then_parse : {A B : Type 0} → Parsed A → (A → Parsed B) → Parsed B
then_parse (parsed a) f = f a
then_parse (refused e) f = refused e
then_parse (thrown e) f = thrown e

abbrev pub of_result : {A : Type 0} → Result A → Parsed A
of_result (ok a) = parsed a
of_result (err e) = thrown e

-- An empty square is none.
abbrev pub Cells : Type 0
Cells = List (Option PieceToken)

unfoldable pub same_widths : ℕ → List (List Text) → Bool
same_widths w [] = true
same_widths w (row ∷ rows) = (length row == w) && same_widths w rows

abbrev pub is_dot : Text → Bool
is_dot (c ∷ []) = c == 46
is_dot _ = false

abbrev pub known : Option PieceToken → Parsed (Option PieceToken)
known none = refused unknown_token
known (some piece) = parsed (some piece)

unfoldable pub parse_cell : Text → Parsed (Option PieceToken)
unfolding parse_piece_token
parse_cell token = if is_dot token then parsed none else known (parse_piece_token token)

unfoldable pub parse_cells : List Text → Parsed Cells
unfolding parse_cell
parse_cells [] = parsed []
parse_cells (token ∷ tokens) =
    then_parse (parse_cell token)
      (λ cell. then_parse (parse_cells tokens) (λ cells. parsed (cell ∷ cells)))

unfoldable pub parse_rows : List (List Text) → Parsed (List Cells)
unfolding parse_cells
parse_rows [] = parsed []
parse_rows (row ∷ rows) =
    then_parse (parse_cells row)
      (λ cells. then_parse (parse_rows rows) (λ others. parsed (cells ∷ others)))

abbrev pub new_piece : ℕ → ℕ → ℕ → PieceToken → Piece
new_piece id row col t = record {
  id = id;
  color = t.color;
  kind = t.kind;
  cell = record { row = pos row; col = pos col };
  state = idle;
  has_moved = false;
}

-- The inner loop, from the column `col` on; the id is the next one to be given.
unfoldable pub place_cells : ℕ → ℕ → ℕ → Cells → Board → Result (ℕ × Board)
place_cells row col id [] b = ok (id, b)
place_cells row col id (none ∷ cells) b = place_cells row (col + 1) id cells b
place_cells row col id (some t ∷ cells) b =
    add_piece b (new_piece id row col t) >>= place_cells row (col + 1) (id + 1) cells

unfoldable pub place_rows : ℕ → ℕ → List Cells → Board → Result Board
unfolding place_cells
place_rows row id [] b = ok b
place_rows row id (cells ∷ rows) b =
    place_cells row 0 id cells b >>= λ r. place_rows (row + 1) r.0 rows r.1

unfoldable pub build : ℕ → List Cells → Result Board
unfolding place_rows
build width rows = make_board (pos width) (pos (length rows)) >>= place_rows 0 1 rows

unfoldable pub parse_grid : List (List Text) → Parsed Board
unfolding parse_rows build same_widths
parse_grid [] = refused empty_board
parse_grid (row ∷ rows) =
    let width = length row in
    if width == 0
    then refused empty_board
    else if same_widths width (row ∷ rows)
    then then_parse (parse_rows (row ∷ rows)) (λ cells. of_result (build width cells))
    else refused row_width_mismatch

unfoldable pub parse : List Text → Parsed Board
unfolding parse_grid tokenize
parse lines = parse_grid (map tokenize lines)
