-- ===== src/Scripts/Processor.antt =====
-- logic/src/kfc/texttests/command_processor.cpp and logic/apps/kfc_app/main.cpp.
use kung_fu_chess.Prelude.{
  string_eq, ℕ, zero, suc, ◌+◌, ◌-◌, ◌*◌, ℤ, pos, negsuc, Bool, ◌&&◌, ◌==◌, leb, if◌then◌else◌,
  Option, none, some, List, [], ◌∷◌, ◌++◌, Failure, Result, ok, err,
}
use kung_fu_chess.Model.Board.{Board}
use kung_fu_chess.RealTime.{default_factory}
use kung_fu_chess.Io.{
  Text, tokenize, ParseError, Parsed, parsed, refused, thrown, parse, empty_board,
  row_width_mismatch, unknown_token, missing_board_section, missing_commands_section,
  invalid_argument_count, invalid_number, unknown_command,
}
use kung_fu_chess.Scripts.Reader.{Sections, read}
use kung_fu_chess.Scripts.Game.{Game, new_game, click_game, jump_game, wait_game, print_board}

abbrev pub is_digit : ℕ → Bool
is_digit c = leb 48 c && leb c 57

-- The value of the digits read so far and of those to come, if they all are digits.
unfoldable pub digits : ℕ → Text → Option ℕ
digits n [] = some n
digits n (c ∷ cs) = let rest = digits (n * 10 + (c - 48)) cs in if is_digit c then rest else none

-- At least one digit.
unfoldable pub magnitude : Text → Option ℕ
unfolding digits
magnitude [] = none
magnitude (c ∷ cs) = digits 0 (c ∷ cs)

abbrev pub minus : ℕ → ℤ
minus zero = pos 0
minus (suc n) = negsuc n

-- An int has 32 bits.
abbrev pub positive_int : Option ℕ → Option ℤ
positive_int none = none
positive_int (some n) = if leb n 2147483647 then some (pos n) else none

abbrev pub negative_int : Option ℕ → Option ℤ
negative_int none = none
negative_int (some n) = if leb n 2147483648 then some (minus n) else none

-- std::stoi of a token, which has no white space, with all of it consumed.
unfoldable pub stoi : Text → Option ℤ
unfolding magnitude
stoi [] = none
stoi (c ∷ cs) =
    if c == 45
    then negative_int (magnitude cs)
    else if c == 43
    then positive_int (magnitude cs)
    else positive_int (magnitude (c ∷ cs))

-- How a script ends: at its last line, with a ParseError, or with another exception.
pub data Ending : Type 0 where
  finished : Ending
  rejected_with : ParseError → Ending
  crashed : Failure → Ending

-- What a command does: it prints and the game goes on, or the script ends.
pub data Done : Type 0 where
  goes_on : Text → Game → Done
  stops : Ending → Done

abbrev pub silently : {A : Type 0} → Result (A × Game) → Done
silently (ok (a, g)) = goes_on [] g
silently (err e) = stops (crashed e)

abbrev pub with_point : (ℤ → ℤ → Game → Done) → Option ℤ → Option ℤ → Game → Done
with_point f (some x) (some y) g = f x y g
with_point f _ _ g = stops (rejected_with invalid_number)

unfoldable pub point_command : (ℤ → ℤ → Game → Done) → List Text → Game → Done
unfolding stoi
point_command f (x ∷ y ∷ []) g = with_point f (stoi x) (stoi y) g
point_command f _ g = stops (rejected_with invalid_argument_count)

unfoldable pub wait_for : Option ℤ → Game → Done
unfolding wait_game
wait_for (some (pos ms)) g = silently (wait_game ms g)
wait_for _ g = stops (rejected_with invalid_number)

unfoldable pub wait_command : List Text → Game → Done
unfolding stoi wait_for
wait_command (ms ∷ []) g = wait_for (stoi ms) g
wait_command _ g = stops (rejected_with invalid_argument_count)

abbrev pub click_word : Text
click_word = 99 ∷ 108 ∷ 105 ∷ 99 ∷ 107 ∷ []

abbrev pub jump_word : Text
jump_word = 106 ∷ 117 ∷ 109 ∷ 112 ∷ []

abbrev pub wait_word : Text
wait_word = 119 ∷ 97 ∷ 105 ∷ 116 ∷ []

abbrev pub print_word : Text
print_word = 112 ∷ 114 ∷ 105 ∷ 110 ∷ 116 ∷ []

abbrev pub board_word : Text
board_word = 98 ∷ 111 ∷ 97 ∷ 114 ∷ 100 ∷ []

unfoldable pub print_command : List Text → Game → Done
unfolding string_eq print_board
print_command (what ∷ []) g =
    if string_eq what board_word
    then goes_on (print_board g) g
    else stops (rejected_with invalid_argument_count)
print_command _ g = stops (rejected_with invalid_argument_count)

-- One line; a line without tokens does nothing.
unfoldable pub run_command : List Text → Game → Done
unfolding string_eq point_command click_game jump_game wait_command print_command
run_command [] g = goes_on [] g
run_command (command ∷ arguments) g =
    if string_eq command click_word
    then point_command (λ x y h. silently (click_game x y h)) arguments g
    else if string_eq command jump_word
    then point_command (λ x y h. silently (jump_game x y h)) arguments g
    else if string_eq command wait_word
    then wait_command arguments g
    else if string_eq command print_word
    then print_command arguments g
    else stops (rejected_with unknown_command)

abbrev pub also_printed : Text → Text × Ending → Text × Ending
also_printed text (rest, ending) = (text ++ rest, ending)

abbrev pub carry_on : Done → (Game → Text × Ending) → Text × Ending
carry_on (goes_on text h) rest = also_printed text (rest h)
carry_on (stops ending) rest = ([], ending)

-- CommandProcessor::run: what is printed, and how it ends.
unfoldable pub run_lines : List Text → Game → Text × Ending
unfolding run_command tokenize
run_lines [] g = ([], finished)
run_lines (line ∷ lines) g = carry_on (run_command (tokenize line) g) (λ h. run_lines lines h)

-- ParseError::code.
unfoldable pub code : ParseError → Text
code empty_board = 69 ∷ 77 ∷ 80 ∷ 84 ∷ 89 ∷ 95 ∷ 66 ∷ 79 ∷ 65 ∷ 82 ∷ 68 ∷ []
code row_width_mismatch =
    82 ∷ 79 ∷ 87 ∷ 95 ∷ 87 ∷ 73 ∷ 68 ∷ 84 ∷ 72 ∷ 95 ∷ 77 ∷ 73 ∷ 83 ∷ 77 ∷ 65 ∷ 84 ∷ 67 ∷ 72 ∷ []
code unknown_token = 85 ∷ 78 ∷ 75 ∷ 78 ∷ 79 ∷ 87 ∷ 78 ∷ 95 ∷ 84 ∷ 79 ∷ 75 ∷ 69 ∷ 78 ∷ []
code missing_board_section =
    77 ∷ 73 ∷ 83 ∷ 83 ∷ 73 ∷ 78 ∷ 71 ∷ 95 ∷ 66 ∷ 79 ∷ 65 ∷ 82 ∷ 68 ∷ 95 ∷ 83 ∷ 69 ∷ 67 ∷ 84 ∷ 73
    ∷ 79 ∷ 78 ∷ []
code missing_commands_section =
    77 ∷ 73 ∷ 83 ∷ 83 ∷ 73 ∷ 78 ∷ 71 ∷ 95 ∷ 67 ∷ 79 ∷ 77 ∷ 77 ∷ 65 ∷ 78 ∷ 68 ∷ 83 ∷ 95 ∷ 83 ∷ 69
    ∷ 67 ∷ 84 ∷ 73 ∷ 79 ∷ 78 ∷ []
code invalid_argument_count =
    73 ∷ 78 ∷ 86 ∷ 65 ∷ 76 ∷ 73 ∷ 68 ∷ 95 ∷ 65 ∷ 82 ∷ 71 ∷ 85 ∷ 77 ∷ 69 ∷ 78 ∷ 84 ∷ 95 ∷ 67 ∷ 79
    ∷ 85 ∷ 78 ∷ 84 ∷ []
code invalid_number = 73 ∷ 78 ∷ 86 ∷ 65 ∷ 76 ∷ 73 ∷ 68 ∷ 95 ∷ 78 ∷ 85 ∷ 77 ∷ 66 ∷ 69 ∷ 82 ∷ []
code unknown_command = 85 ∷ 78 ∷ 75 ∷ 78 ∷ 79 ∷ 87 ∷ 78 ∷ 95 ∷ 67 ∷ 79 ∷ 77 ∷ 77 ∷ 65 ∷ 78 ∷ 68 ∷ []

abbrev pub error_word : Text
error_word = 69 ∷ 82 ∷ 82 ∷ 79 ∷ 82 ∷ 32 ∷ []

-- The catch of `main`, which knows ParseErrors only.
unfoldable pub caught : Text × Ending → Result Text
unfolding code
caught (text, finished) = ok text
caught (text, rejected_with e) = ok (text ++ (error_word ++ (code e ++ 10 ∷ [])))
caught (text, crashed e) = err e

abbrev pub run_board : List Text → Parsed Board → Text × Ending
run_board commands (parsed b) = run_lines commands (new_game b default_factory)
run_board commands (refused e) = ([], rejected_with e)
run_board commands (thrown e) = ([], crashed e)

abbrev pub run_sections : Parsed Sections → Text × Ending
run_sections (parsed s) = run_board s.command_lines (parse s.board_lines)
run_sections (refused e) = ([], rejected_with e)
run_sections (thrown e) = ([], crashed e)

-- The whole program: standard input to standard output.
unfoldable pub main : Text → Result Text
unfolding caught run_lines new_game parse read
main input = caught (run_sections (read input))
