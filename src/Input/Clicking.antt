-- ===== src/Input/Clicking.antt =====
-- controller.cpp. The board that it reads and the requester that it calls are an interface, which the
-- engine of a local game fills; so is the state that they stand for.
use kung_fu_chess.Prelude.{
  ℕ, Bool, true, false, not, ◌==◌, if◌then◌else◌, Option, none, some, Result, ok, err, ◌>>=◌,
  bad_dereference, ℤ,
}
use kung_fu_chess.Model.{PieceColor, Position, Piece, color_eq}
use kung_fu_chess.Model.Board.{Board, piece_at}
use kung_fu_chess.RealTime.{MotionFactory}
use kung_fu_chess.Engine.{GameCore, MoveResult, request_move, request_jump}
use kung_fu_chess.Input.Mapper.{BoardMapper, pixel_to_cell}

-- IMoveRequester, with the board beside it.
pub record MoveRequester (G : Type 0) : Type 0 where
  pub board_of : G → Board
  pub ask_move : G → Position → Position → Result (MoveResult × G)
  pub ask_jump : G → Position → Result (MoveResult × G)

-- GameEngine is one.
abbrev pub engine_requester : MotionFactory → MoveRequester GameCore
engine_requester f = record {
  board_of = λ g. g.board;
  ask_move = request_move f;
  ask_jump = request_jump f;
}

pub data ClickOutcome : Type 0 where
  ignored selected selection_cleared move_requested jump_requested : ClickOutcome

pub record ControllerResult : Type 0 where
  pub outcome : ClickOutcome
  pub move_result : Option MoveResult

pub record Controller : Type 0 where
  pub board_mapper : BoardMapper
  pub controlled_color : Option PieceColor
  pub selected_cell : Option Position
  pub selected_piece_id : Option ℕ

abbrev pub without_request : ClickOutcome → ControllerResult
without_request o = record { outcome = o; move_result = none }

unfoldable pub can_control : PieceColor → Controller → Bool
can_control color c = elim c.controlled_color [ none ↦ true | some own ↦ color_eq own color ]

-- What stands on the selected square is not the piece of this id.
abbrev pub is_other : Option Piece → ℕ → Bool
is_other none id = true
is_other (some piece) id = not (piece.id == id)

-- The assertion that an id is set is an empty optional read.
unfoldable pub stale : Option Position → Option ℕ → Board → Result Bool
stale none id b = ok false
stale (some cell) none b = err bad_dereference
stale (some cell) (some id) b = ok (is_other (piece_at b cell) id)

unfoldable pub selection_is_stale : Controller → Board → Result Bool
unfolding stale
selection_is_stale c b = stale c.selected_cell c.selected_piece_id b

unfoldable pub clear_selection : Controller → Controller
clear_selection c = record c { selected_cell = none; selected_piece_id = none }

abbrev pub select : Position → Piece → Controller → Controller
select cell piece c = record c { selected_cell = some cell; selected_piece_id = some piece.id }

unfoldable pub selected_cell_of : Controller → Board → Result (Option Position)
unfolding selection_is_stale
selected_cell_of c b = selection_is_stale c b >>= λ s. ok (if s then none else c.selected_cell)

module _ {G : Type 0} (q : MoveRequester G) where
  -- With nothing selected.
  unfoldable pub pick_up :
      Position → Option Piece → Controller → G → Result (ControllerResult × Controller × G)
  unfolding can_control
  pick_up cell none c g = ok (without_request ignored, c, g)
  pick_up cell (some piece) c g =
      if can_control piece.color c
      then ok (without_request selected, select cell piece c, g)
      else ok (without_request ignored, c, g)

  unfoldable pub aim :
      Position → Position → Controller → G → Result (ControllerResult × Controller × G)
  unfolding clear_selection
  aim source cell c g = q.ask_move g source cell >>= λ r.
      ok (record { outcome = move_requested; move_result = some r.0 }, clear_selection c, r.1)

  -- With the piece on `source` selected; its colour is read only if the target is occupied.
  unfoldable pub strike :
      Position
      → Option Piece
      → Position
      → Option Piece
      → Controller
      → G
      → Result (ControllerResult × Controller × G)
  unfolding aim
  strike source own cell none c g = aim source cell c g
  strike source none cell (some target) c g = err bad_dereference
  strike source (some own) cell (some target) c g =
      if color_eq target.color own.color
      then ok (without_request selected, select cell target c, g)
      else aim source cell c g

  -- The click with a selection that is not stale.
  unfoldable pub click_on :
      Option Position
      → Option Position
      → Controller
      → G
      → Result (ControllerResult × Controller × G)
  unfolding clear_selection pick_up strike
  click_on none none c g = ok (without_request ignored, c, g)
  click_on none (some _) c g = ok (without_request selection_cleared, clear_selection c, g)
  click_on (some cell) none c g = pick_up cell (piece_at (q.board_of g) cell) c g
  click_on (some cell) (some source) c g =
      strike source (piece_at (q.board_of g) source) cell (piece_at (q.board_of g) cell) c g

  unfoldable pub click : ℤ → ℤ → Controller → G → Result (ControllerResult × Controller × G)
  unfolding selection_is_stale clear_selection click_on pixel_to_cell
  click x y c g = selection_is_stale c (q.board_of g) >>= λ s.
      let fresh = if s then clear_selection c else c in
      click_on (pixel_to_cell c.board_mapper x y) fresh.selected_cell fresh g

  unfoldable pub jump_on : Position → Option Piece → Controller → G → Result (ControllerResult × G)
  unfolding can_control
  jump_on cell none c g = ok (without_request ignored, g)
  jump_on cell (some piece) c g =
      if can_control piece.color c
      then (q.ask_jump g cell >>= λ r.
          ok (record { outcome = jump_requested; move_result = some r.0 }, r.1))
      else ok (without_request ignored, g)

  abbrev pub jump_at : Option Position → Controller → G → Result (ControllerResult × G)
  jump_at none c g = ok (without_request ignored, g)
  jump_at (some cell) c g = jump_on cell (piece_at (q.board_of g) cell) c g

  -- The controller itself is only read.
  unfoldable pub jump : ℤ → ℤ → Controller → G → Result (ControllerResult × G)
  unfolding pixel_to_cell jump_on
  jump x y c g = jump_at (pixel_to_cell c.board_mapper x y) c g
