-- ===== src/Scripts/Reader.antt =====
-- logic/src/kfc/texttests/input_reader.cpp: the two sections of a script. std::getline is written out.
use kung_fu_chess.Prelude.{
  string_eq, ℕ, Bool, true, ◌||◌, ◌&&◌, ◌==◌, if◌then◌else◌, Option, none, some, List, [], ◌∷◌,
  ◌++◌, map,
}
use kung_fu_chess.Io.{
  Text, Parsed, parsed, refused, missing_board_section, missing_commands_section,
}

-- Space, tab, carriage return, newline.
abbrev pub is_blank_char : ℕ → Bool
is_blank_char c = (c == 32) || ((c == 9) || ((c == 13) || (c == 10)))

unfoldable pub is_blank : Text → Bool
is_blank [] = true
is_blank (c ∷ cs) = is_blank_char c && is_blank cs

unfoldable pub skip_blanks : Text → Text
skip_blanks [] = []
skip_blanks (c ∷ cs) = let rest = skip_blanks cs in if is_blank_char c then rest else c ∷ cs

-- Up to the last character that is not blank.
unfoldable pub cut_blanks : Text → Text
unfolding is_blank
cut_blanks [] = []
cut_blanks (c ∷ cs) = let rest = cut_blanks cs in if is_blank (c ∷ cs) then [] else c ∷ rest

unfoldable pub trim : Text → Text
unfolding skip_blanks cut_blanks
trim line = cut_blanks (skip_blanks line)

-- `line` is what has been read of the current line; a last line may lack its newline.
unfoldable pub get_lines : Text → Text → List Text
get_lines [] [] = []
get_lines (c ∷ cs) [] = (c ∷ cs) ∷ []
get_lines line (c ∷ cs) =
    let next = get_lines [] cs in
    let longer = get_lines (line ++ c ∷ []) cs in if c == 10 then line ∷ next else longer

unfoldable pub pop_return : Text → Text
pop_return [] = []
pop_return (c ∷ []) = if c == 13 then [] else c ∷ []
pop_return (c ∷ d ∷ cs) = c ∷ pop_return (d ∷ cs)

unfoldable pub drop_blank_lines : List Text → List Text
unfolding is_blank
drop_blank_lines [] = []
drop_blank_lines (l ∷ ls) = let rest = drop_blank_lines ls in if is_blank l then rest else l ∷ rest

unfoldable pub split_non_blank_lines : Text → List Text
unfolding get_lines pop_return drop_blank_lines
split_non_blank_lines input = drop_blank_lines (map pop_return (get_lines [] input))

abbrev pub behind : Text → Option (List Text × List Text) → Option (List Text × List Text)
behind l none = none
behind l (some (a, b)) = some (l ∷ a, b)

-- The lines before the first marker, and those behind it.
unfoldable pub split_at : Text → List Text → Option (List Text × List Text)
unfolding string_eq trim
split_at marker [] = none
split_at marker (l ∷ ls) =
    let later = behind l (split_at marker ls) in
    if string_eq (trim l) marker then some ([], ls) else later

abbrev pub board_marker : Text
board_marker = 66 ∷ 111 ∷ 97 ∷ 114 ∷ 100 ∷ 58 ∷ []

abbrev pub commands_marker : Text
commands_marker = 67 ∷ 111 ∷ 109 ∷ 109 ∷ 97 ∷ 110 ∷ 100 ∷ 115 ∷ 58 ∷ []

-- Sections.
pub record Sections : Type 0 where
  pub board_lines : List Text
  pub command_lines : List Text

abbrev pub second_section : Option (List Text × List Text) → Parsed Sections
second_section none = refused missing_commands_section
second_section (some (board, commands)) =
    parsed (record { board_lines = board; command_lines = commands })

abbrev pub first_section : Option (List Text × List Text) → Parsed Sections
first_section none = refused missing_board_section
first_section (some (before, after)) = second_section (split_at commands_marker after)

unfoldable pub read : Text → Parsed Sections
unfolding split_non_blank_lines split_at
read input = first_section (split_at board_marker (split_non_blank_lines input))
