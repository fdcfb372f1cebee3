-- ===== src/Io/Tokens.antt =====
-- piece_token.cpp and text_tokenizer.cpp. A character is its code, a string the list of its codes.
use kung_fu_chess.Prelude.{
  ℕ, Bool, true, false, ◌||◌, ◌&&◌, ◌==◌, leb, if◌then◌else◌, Option, none, some, List, [], ◌∷◌,
  ◌++◌,
}
use kung_fu_chess.Model.{
  PieceColor, white, black, PieceKind, king, queen, rook, bishop, knight, pawn, drone,
}

abbrev pub Text : Type 0
Text = List ℕ

pub record PieceToken : Type 0 where
  pub color : PieceColor
  pub kind : PieceKind

-- K Q R B N P D.
unfoldable pub letter_for_kind : PieceKind → ℕ
letter_for_kind king = 75
letter_for_kind queen = 81
letter_for_kind rook = 82
letter_for_kind bishop = 66
letter_for_kind knight = 78
letter_for_kind pawn = 80
letter_for_kind drone = 68

unfoldable pub kind_for_letter : ℕ → Option PieceKind
kind_for_letter c =
    if c == 75
    then some king
    else if c == 81
    then some queen
    else if c == 82
    then some rook
    else if c == 66
    then some bishop
    else if c == 78
    then some knight
    else if c == 80
    then some pawn
    else if c == 68
    then some drone
    else none

-- w and b.
abbrev pub letter_for_color : PieceColor → ℕ
letter_for_color white = 119
letter_for_color black = 98

abbrev pub with_color : PieceColor → Option PieceKind → Option PieceToken
with_color color none = none
with_color color (some k) = some (record { color = color; kind = k })

unfoldable pub parse_piece_token : Text → Option PieceToken
unfolding kind_for_letter
parse_piece_token (c ∷ k ∷ []) =
    if c == 119
    then with_color white (kind_for_letter k)
    else if c == 98
    then with_color black (kind_for_letter k)
    else none
parse_piece_token _ = none

unfoldable pub piece_token_text : PieceColor → PieceKind → Text
unfolding letter_for_kind
piece_token_text color k = letter_for_color color ∷ letter_for_kind k ∷ []

-- What operator>> skips: space, and the codes from tab to carriage return.
abbrev pub is_space : ℕ → Bool
is_space c = (c == 32) || (leb 9 c && leb c 13)

abbrev pub emit : Text → List Text → List Text
emit [] tokens = tokens
emit (c ∷ cs) tokens = (c ∷ cs) ∷ tokens

-- `token` is what has been read of the current token.
unfoldable pub scan : Text → Text → List Text
scan token [] = emit token []
scan token (c ∷ cs) = elim (is_space c) [
  | true ↦ emit token (scan [] cs)
  | false ↦ scan (token ++ c ∷ []) cs
]

unfoldable pub tokenize : Text → List Text
unfolding scan
tokenize line = scan [] line
