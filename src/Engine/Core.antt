-- ===== src/Engine/Core.antt =====
-- game_engine.cpp and game_core.cpp. A GameCore's parts refer to one another, so they are one state
-- here; the rule registry and the motion factory never change and are passed beside it.
use kung_fu_chess.Prelude.{
  ℕ, Bool, true, false, ◌||◌, if◌then◌else◌, Option, none, some, List, [], ◌∷◌, Result, ok, err,
  ◌>>=◌, bad_dereference,
}
use kung_fu_chess.Model.{Position, Piece}
use kung_fu_chess.Model.Board.{Board, piece_at}
use kung_fu_chess.Rules.{
  MoveReason, MoveValidation, reason_ok, game_over, motion_in_progress, empty_source,
  PieceRuleRegistry, validate_move, make_full_piece_rule_registry,
}
use kung_fu_chess.RealTime.{
  Motion, MotionFactory, create_move, create_jump, RealTimeArbiter, start_motion, is_piece_busy,
  advance_time, ArrivalEvent, captured_a_king,
}

pub record GameCore : Type 0 where
  pub board : Board
  pub arbiter : RealTimeArbiter
  pub is_game_over : Bool

pub record MoveResult : Type 0 where
  pub is_accepted : Bool
  pub reason : MoveReason

-- The constructor, over a board that the caller hands in.
unfoldable pub make_game_core : Board → GameCore
make_game_core b = record {
  board = b;
  arbiter = record { active_motions = []; cooldowns_remaining_ms = []; clock_ms = 0 };
  is_game_over = false;
}

abbrev pub refuse : MoveReason → GameCore → MoveResult × GameCore
refuse why g = (record { is_accepted = false; reason = why }, g)

abbrev pub accepted : MoveResult
accepted = record { is_accepted = true; reason = reason_ok }

-- The last statements of both requests.
unfoldable pub launch : Motion → GameCore → Result (MoveResult × GameCore)
launch m g = do
  (b, a) ← start_motion m g.board g.arbiter
  ok (accepted, record g { board = b; arbiter = a })

abbrev pub is_busy : GameCore → Option Piece → Bool
is_busy g none = false
is_busy g (some x) = is_piece_busy g.arbiter x.id

-- *moving.
abbrev pub deref : Option Piece → Result Piece
deref none = err bad_dereference
deref (some x) = ok x

abbrev registry : PieceRuleRegistry
registry = make_full_piece_rule_registry

unfoldable pub start_move :
    MotionFactory → GameCore → Position → Position → MoveValidation → Result (MoveResult × GameCore)
unfolding launch
start_move f g source destination v =
    if v.is_valid
    then (deref (piece_at g.board source) >>= λ moving.
        launch (create_move f moving source destination) g)
    else ok (refuse v.reason g)

unfoldable pub request_move :
    MotionFactory → GameCore → Position → Position → Result (MoveResult × GameCore)
request_move f g source destination =
    if g.is_game_over
    then ok (refuse game_over g)
    else if is_busy g (piece_at g.board source)
    then ok (refuse motion_in_progress g)
    else validate_move registry g.board source destination >>= start_move f g source destination

unfoldable pub jump_piece :
    MotionFactory → GameCore → Position → Option Piece → Result (MoveResult × GameCore)
unfolding launch
jump_piece f g cell none = ok (refuse empty_source g)
jump_piece f g cell (some x) =
    if is_piece_busy g.arbiter x.id
    then ok (refuse motion_in_progress g)
    else launch (create_jump f x cell) g

unfoldable pub request_jump : MotionFactory → GameCore → Position → Result (MoveResult × GameCore)
unfolding jump_piece
request_jump f g cell =
    if g.is_game_over then ok (refuse game_over g) else jump_piece f g cell (piece_at g.board cell)

-- The loop over the events of a step.
unfoldable pub any_king_captured : List ArrivalEvent → Bool
any_king_captured [] = false
any_king_captured (e ∷ es) = captured_a_king e || any_king_captured es

abbrev after_events :
    GameCore → List ArrivalEvent × Board × RealTimeArbiter → List ArrivalEvent × GameCore
after_events g (events, b, a) = (
  events,
  record { board = b; arbiter = a; is_game_over = g.is_game_over || any_king_captured events },
)

unfoldable pub wait : ℕ → GameCore → Result (List ArrivalEvent × GameCore)
wait ms g =
    if g.is_game_over
    then ok ([], g)
    else (advance_time ms g.board g.arbiter >>= λ r. ok (after_events g r))

-- What a client may ask of a game.
pub data Command : Type 0 where
  moves : Position → Position → Command
  jumps : Position → Command
  waits : ℕ → Command

abbrev drop_result {ℓ} : {A : Type ℓ} → Result (A × GameCore) → Result GameCore
drop_result r = r >>= λ p. ok p.1

unfoldable pub step : MotionFactory → Command → GameCore → Result GameCore
step f (moves source destination) g = drop_result (request_move f g source destination)
step f (jumps cell) g = drop_result (request_jump f g cell)
step f (waits ms) g = drop_result (wait ms g)

unfoldable pub run : MotionFactory → List Command → GameCore → Result GameCore
unfolding step
run f [] g = ok g
run f (c ∷ cs) g = step f c g >>= run f cs
