-- ===== src/RealTime/Factory.antt =====
-- motion_kind.hpp, motion.hpp, motion_factory.cpp and its policies. The source computes a duration
-- in `double`s; here lengths are whole millimetres and speeds whole millimetres per second, and the
-- quotient is rounded down, as the cast to `int` does.
use kung_fu_chess.Prelude.{ℕ, ◌*◌, ◌/◌, max, Bool, ltb, if◌then◌else◌, ◌-ℤ◌, abs}
use kung_fu_chess.Model.{Position, Piece, PieceKind, drone}

pub data MotionKind : Type 0 where
  move jump_in_place : MotionKind

abbrev pub is_jump : MotionKind → Bool
is_jump move = Bool.false
is_jump jump_in_place = Bool.true

pub record Motion : Type 0 where
  pub moving_piece : Piece
  pub source : Position
  pub destination : Position
  pub kind : MotionKind
  pub duration_ms : ℕ
  pub elapsed_ms : ℕ
  pub cooldown_ms : ℕ

-- The collaborators of a MotionFactory: two cooldown policies, a speed provider, a scale.
pub record MotionFactory : Type 0 where
  pub standard_cooldown_ms : ℕ
  pub jump_cooldown_ms : ℕ
  pub speed_mm_per_sec : PieceKind → ℕ
  pub mm_per_cell : ℕ

-- FixedPieceSpeedProvider: 1.0 m/s for a drone, else 1.5 m/s.
unfoldable pub fixed_speed : PieceKind → ℕ
fixed_speed drone = 1000
fixed_speed _ = 1500

abbrev pub standard_cooldown : ℕ
standard_cooldown = 2500

abbrev pub jump_cooldown : ℕ
jump_cooldown = 834

abbrev pub jump_duration : ℕ
jump_duration = 700

-- The factory that the defaults of the source make.
unfoldable pub default_factory : MotionFactory
unfolding fixed_speed
default_factory = record {
  standard_cooldown_ms = standard_cooldown;
  jump_cooldown_ms = jump_cooldown;
  speed_mm_per_sec = fixed_speed;
  mm_per_cell = 1500;
}

unfoldable pub cell_step_distance : Position → Position → ℕ
unfolding ◌-ℤ◌
cell_step_distance source destination =
    max (abs (destination.row -ℤ source.row)) (abs (destination.col -ℤ source.col))

unfoldable pub move_duration : MotionFactory → PieceKind → ℕ → ℕ
move_duration f kind steps =
    let speed = f.speed_mm_per_sec kind in
    if ltb 0 speed then steps * f.mm_per_cell * 1000 / speed else 0

unfoldable pub create_move : MotionFactory → Piece → Position → Position → Motion
unfolding move_duration cell_step_distance
create_move f piece source destination = record {
  moving_piece = piece;
  source = source;
  destination = destination;
  kind = move;
  duration_ms = move_duration f piece.kind (cell_step_distance source destination);
  elapsed_ms = 0;
  cooldown_ms = f.standard_cooldown_ms;
}

unfoldable pub create_jump : MotionFactory → Piece → Position → Motion
create_jump f piece cell = record {
  moving_piece = piece;
  source = cell;
  destination = cell;
  kind = jump_in_place;
  duration_ms = jump_duration;
  elapsed_ms = 0;
  cooldown_ms = f.jump_cooldown_ms;
}
