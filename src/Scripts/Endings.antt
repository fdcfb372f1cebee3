-- ===== src/Scripts/Endings.antt =====
-- The program ends in the ordinary way on every input: no exception but a ParseError is ever thrown.
use kung_fu_chess.Prelude.{
  string_eq, ℕ, ℤ, pos, negsuc, ◌≡◌, refl, subst, inl, inr, Bool-cases, Option, none, some, List,
  [], ◌∷◌, Result, ok, err, Returns, >>=-Returns, weaken_Returns, length,
}
use kung_fu_chess.RealTime.{default_factory}
use kung_fu_chess.Engine.{GameCore, MoveResult}
use kung_fu_chess.Engine
use kung_fu_chess.Engine.Safety.{wait-IsSound, make_game_core-IsSound}
use kung_fu_chess.Model.Board.{Board}
use kung_fu_chess.Io.{Text, Parsed, parsed, refused, thrown, tokenize, parse}
use kung_fu_chess.Io.Reading.{parse-Gives, Gives, Reads}
use kung_fu_chess.Scripts.Reader.{
  split_at, first_section, second_section, read, split_non_blank_lines, board_marker,
  commands_marker,
}
use kung_fu_chess.Scripts.Game.{Game, new_game, click_game, jump_game, wait_game, after_step}
use kung_fu_chess.Scripts.Playing.{IsPlayable, click_game-Plays, jump_game-Plays}
use kung_fu_chess.Scripts.Processor.{
  stoi, Ending, finished, rejected_with, crashed, Done, goes_on, stops, silently, with_point,
  point_command, wait_for, wait_command, print_command, run_command, carry_on, run_lines, caught,
  run_board, run_sections, main, click_word, jump_word, wait_word, print_word, board_word,
}

-- The game goes on in a playable state, or the script ends without a crash.
abbrev Orderly : Ending → Type 0
Orderly (crashed e) = ⊥
Orderly _ = Unit

abbrev OrderlyDone : Done → Type 0
OrderlyDone (goes_on text g) = IsPlayable g
OrderlyDone (stops ending) = Orderly ending

abbrev Playable : {A : Type 0} → A × Game → Type 0
Playable r = IsPlayable r.1

silently-OrderlyDone :
    {A : Type 0} (r : Result (A × Game)) → Returns (Playable {A = A}) r → OrderlyDone (silently r)
silently-OrderlyDone (ok (a, g)) (v, e, h) =
    let same : v.1 ≡ g = cc in subst (λ k. IsPlayable k) same h
silently-OrderlyDone (err f) (v, e, h) = absurd (cc)

with_point-OrderlyDone :
    (f : ℤ → ℤ → Game → Done) (x y : Option ℤ) (g : Game)
    → ((a b : ℤ) → OrderlyDone (f a b g))
    → OrderlyDone (with_point f x y g)
with_point-OrderlyDone f none y g h = tt
with_point-OrderlyDone f (some x) none g h = tt
with_point-OrderlyDone f (some x) (some y) g h = h x y

point_command-OrderlyDone :
    (f : ℤ → ℤ → Game → Done) (arguments : List Text) (g : Game)
    → ((a b : ℤ) → OrderlyDone (f a b g))
    → OrderlyDone (point_command f arguments g)
unfolding point_command
point_command-OrderlyDone f [] g h = tt
point_command-OrderlyDone f (x ∷ []) g h = tt
point_command-OrderlyDone f (x ∷ y ∷ []) g h = with_point-OrderlyDone f (stoi x) (stoi y) g h
point_command-OrderlyDone f (x ∷ y ∷ z ∷ rest) g h = tt

wait_for-OrderlyDone : (ms : Option ℤ) (g : Game) → IsPlayable g → OrderlyDone (wait_for ms g)
unfolding wait_for wait_game after_step
wait_for-OrderlyDone none g h = tt
wait_for-OrderlyDone (some (negsuc n)) g h = tt
wait_for-OrderlyDone (some (pos ms)) g (s, k) = silently-OrderlyDone (wait_game ms g) (
    >>=-Returns (Engine.wait ms g.core) _ (wait-IsSound g.factory g.core s ms)
      (λ r t. (_, refl, (t, k))))

wait_command-OrderlyDone :
    (arguments : List Text) (g : Game) → IsPlayable g → OrderlyDone (wait_command arguments g)
unfolding wait_command
wait_command-OrderlyDone [] g h = tt
wait_command-OrderlyDone (ms ∷ []) g h = wait_for-OrderlyDone (stoi ms) g h
wait_command-OrderlyDone (ms ∷ other ∷ rest) g h = tt

print_command-OrderlyDone :
    (arguments : List Text) (g : Game) → IsPlayable g → OrderlyDone (print_command arguments g)
unfolding print_command
print_command-OrderlyDone [] g h = tt
print_command-OrderlyDone (what ∷ []) g h = elim (Bool-cases (string_eq what board_word)) [
  | inl e ↦ simp e h
  | inr e ↦ simp e tt
]
print_command-OrderlyDone (what ∷ other ∷ rest) g h = tt

run_command-OrderlyDone :
    (tokens : List Text) (g : Game) → IsPlayable g → OrderlyDone (run_command tokens g)
unfolding run_command
run_command-OrderlyDone [] g h = h
run_command-OrderlyDone (command ∷ arguments) g (s, k) =
    elim (Bool-cases (string_eq command click_word)) [
      | inl e ↦ simp e (
          point_command-OrderlyDone _ arguments g (λ x y.
            silently-OrderlyDone (click_game x y g)
              (weaken_Returns (λ v h. h.0) (click_game-Plays g s x y k))))
      | inr a ↦ elim (Bool-cases (string_eq command jump_word)) [
        | inl e ↦
            simp (a, e)
              (point_command-OrderlyDone _ arguments g (λ x y.
                silently-OrderlyDone (jump_game x y g)
                  (weaken_Returns (λ v h. h.0) (jump_game-Plays g s x y k))))
        | inr b ↦ elim (Bool-cases (string_eq command wait_word)) [
          | inl e ↦ simp (a, b, e) (wait_command-OrderlyDone arguments g (s, k))
          | inr c ↦ elim (Bool-cases (string_eq command print_word)) [
            | inl e ↦ simp (a, b, c, e) (print_command-OrderlyDone arguments g (s, k))
            | inr d ↦ simp (a, b, c, d) tt
          ]
        ]
      ]
    ]

then-Orderly :
    (lines : List Text) (d : Done)
    → ((k : Game) → IsPlayable k → Orderly (run_lines lines k).1)
    → OrderlyDone d
    → Orderly (carry_on d (λ k. run_lines lines k)).1
then-Orderly lines (goes_on text k) rest o = rest k o
then-Orderly lines (stops ending) rest o = o

run_lines-Orderly : (lines : List Text) (g : Game) → IsPlayable g → Orderly (run_lines lines g).1
unfolding run_lines
run_lines-Orderly [] g h = tt
run_lines-Orderly (line ∷ lines) g h =
    then-Orderly lines (run_command (tokenize line) g) (λ k p. run_lines-Orderly lines k p)
      (run_command-OrderlyDone (tokenize line) g h)

run_board-Orderly :
    (commands : List Text) (h : ℕ) (b : Parsed Board)
    → Gives (Reads h) b
    → Orderly (run_board commands b).1
unfolding new_game
run_board-Orderly commands h (parsed b) (coherent, _) =
    run_lines-Orderly commands (new_game b default_factory)
      (make_game_core-IsSound default_factory b coherent, tt)
run_board-Orderly commands h (refused e) g = tt
run_board-Orderly commands h (thrown e) g = absurd g

run_sections-Orderly : (input : Text) → Orderly (run_sections (read input)).1
unfolding read
run_sections-Orderly input = first (split_at board_marker (split_non_blank_lines input))
  where
    second : (o : Option (List Text × List Text)) → Orderly (run_sections (second_section o)).1
    second none = tt
    second (some (board, commands)) =
        run_board-Orderly commands (length board) (parse board) (parse-Gives board)

    first : (o : Option (List Text × List Text)) → Orderly (run_sections (first_section o)).1
    first none = tt
    first (some (before, after)) = second (split_at commands_marker after)

caught-Returns : (r : Text × Ending) → Orderly r.1 → Returns {0, 0} (λ out. Unit) (caught r)
unfolding caught
caught-Returns (text, finished) o = (_, refl, tt)
caught-Returns (text, rejected_with e) o = (_, refl, tt)
caught-Returns (text, crashed e) o = absurd o

-- On every input the program ends in the ordinary way: whatever the text, its sections, its board and its
-- commands, the only exceptions that are thrown are ParseErrors, which `main` catches.
pub main-Returns : (input : Text) → Returns {0, 0} (λ out. Unit) (main input)
unfolding main
main-Returns input = caught-Returns (run_sections (read input)) (run_sections-Orderly input)
