-- ===== src/Tests/ScriptTests.antt =====
-- Scripts, from their text to what is printed.
use kung_fu_chess.Prelude.{
  ◌≡◌, refl, false, pos, List, [], ◌∷◌, ◌++◌, none, some, Returns, ok, arith,
}
use kung_fu_chess.Model.{white, king, idle}
use kung_fu_chess.Model.Board.{
  Board, make_board, add_piece, in_bounds, cell_at, write_cell, piece_at,
}
use kung_fu_chess.Io.{Text, parse, parsed, print}
use kung_fu_chess.RealTime.{default_factory}
use kung_fu_chess.Tests.Fixtures.{rooks, rooks-IsCoherent}
use kung_fu_chess.Scripts.{get_lines, main, new_game, Sound, new_bus, sound_board}
use kung_fu_chess.Scripts.Turns.{arrivals_along, Turn, clicks, jumps, waits, play_turns}
use kung_fu_chess.Scripts.Sounds.{Hears, play_turns-Hears}
use kung_fu_chess.Scripts.Endings.{main-Returns}
use kung_fu_chess.Scripts.RoundTrip.{SameGrid, parse-print}

-- Two columns and a row: a king, and nothing.
abbrev small_board : Board
small_board = record {
  width = 2;
  height = 1;
  cells =
      some (record {
        id = 1;
        color = white;
        kind = king;
        cell = record { row = pos 0; col = pos 0 };
        state = idle;
        has_moved = false;
      })
      ∷ none
      ∷ [];
}

printed : print small_board ≡ 119 ∷ 75 ∷ 32 ∷ 46 ∷ 10 ∷ []
unfolding print piece_at in_bounds cell_at
printed = refl

parse-print_example :
    (d : Board) × ((parse (get_lines [] (print small_board)) ≡ parsed d) × SameGrid small_board d)
parse-print_example = parse-print small_board (omega arith) (omega arith)

-- "Board:", "wK .", "Commands:", "print board"
abbrev script : Text
script =
    66 ∷ 111 ∷ 97 ∷ 114 ∷ 100 ∷ 58 ∷ 10 ∷ 119 ∷ 75 ∷ 32 ∷ 46 ∷ 10 ∷ 67 ∷ 111 ∷ 109 ∷ 109 ∷ 97 ∷ 110
    ∷ 100 ∷ 115 ∷ 58 ∷ 10 ∷ 112 ∷ 114 ∷ 105 ∷ 110 ∷ 116 ∷ 32 ∷ 98 ∷ 111 ∷ 97 ∷ 114 ∷ 100 ∷ []

main-Returns_example : Returns {0, 0} (λ out. Unit) (main script)
main-Returns_example = main-Returns script

played : main script ≡ ok (119 ∷ 75 ∷ 32 ∷ 46 ∷ 10 ∷ [])
unfolding main make_board add_piece in_bounds cell_at write_cell piece_at
played = refl

-- A player that writes down what it is to play.
abbrev write_down : Sound → List Sound → List Sound
write_down s heard = heard ++ s ∷ []

-- A rook takes another at the end of its row; a piece jumps, and lands.
abbrev evening : List Turn
evening =
    clicks (pos 50) (pos 50)
    ∷ clicks (pos 750) (pos 50)
    ∷ waits 100
    ∷ jumps (pos 450) (pos 150)
    ∷ waits 1000000
    ∷ []

play_turns-Hears_example :
    Returns {0, 0}
      (Hears write_down [] evening (arrivals_along evening (new_game rooks default_factory)))
      (play_turns (sound_board write_down new_bus) evening [] (new_game rooks default_factory))
play_turns-Hears_example =
    play_turns-Hears write_down [] default_factory rooks evening rooks-IsCoherent
