-- ===== src/Server/DisconnectWatch/Defs.antt =====
-- disconnect_watch.cpp: the grace that a dropped player gets before forfeiting. Times are
-- nanoseconds of the steady clock, as in the source; its mutex makes each operation one step.
use kung_fu_chess.Prelude.{
  ℕ, ◌+◌, ◌-◌, ◌*◌, ◌/◌, Bool, true, false, ◌==◌, if◌then◌else◌, Option, none, some, List, [], ◌∷◌,
}
use kung_fu_chess.Model.{PieceColor, color_eq}

-- -1 in the source is `none` in last_reported_second: no reported second is negative.
pub record DisconnectWatch : Type 0 where
  pub grace_ms : ℕ
  pub frozen : Bool
  pub pending : Option PieceColor
  pub watching : Option PieceColor
  pub deadline : ℕ
  pub last_reported_second : Option ℕ

pub record Tick : Type 0 where
  pub seconds_remaining : Option ℕ
  pub expired_for : Option PieceColor

abbrev pub quiet : Tick
quiet = record { seconds_remaining = none; expired_for = none }

abbrev pub new_watch : ℕ → DisconnectWatch
new_watch grace = record {
  grace_ms = grace;
  frozen = false;
  pending = none;
  watching = none;
  deadline = 0;
  last_reported_second = none;
}

unfoldable pub report_disconnect : PieceColor → DisconnectWatch → DisconnectWatch
report_disconnect color w = record w { pending = some color; frozen = true }

abbrev pub ms_until : ℕ → ℕ → ℕ
ms_until deadline now = (deadline - now) / 1000000

-- The first statements of `advance`: a fresh drop becomes a live countdown.
unfoldable pub open_countdown :
    ℕ → Option PieceColor → Option PieceColor → DisconnectWatch → DisconnectWatch
open_countdown now (some color) none w = record w {
  pending = none;
  watching = some color;
  deadline = now + w.grace_ms * 1000000;
  last_reported_second = none;
}
open_countdown now _ _ w = record w { pending = none }

abbrev pub said : Option ℕ → ℕ → Bool
said none s = false
said (some last) s = s == last

unfoldable pub count_down : ℕ → Option PieceColor → DisconnectWatch → Tick × DisconnectWatch
count_down now none w = (quiet, w)
count_down now (some color) w =
    let remaining = ms_until w.deadline now in
    let seconds = (remaining + 999) / 1000 in
    if remaining == 0
    then (
      record { seconds_remaining = none; expired_for = some color },
      record w { watching = none; frozen = false },
    )
    else if said w.last_reported_second seconds
    then (quiet, w)
    else (
      record { seconds_remaining = some seconds; expired_for = none },
      record w { last_reported_second = some seconds },
    )

unfoldable pub advance : ℕ → DisconnectWatch → Tick × DisconnectWatch
unfolding open_countdown count_down
advance now w =
    let opened = open_countdown now w.pending w.watching w in count_down now opened.watching opened

-- False when the countdown is not this colour's.
unfoldable pub cancel : PieceColor → DisconnectWatch → Bool × DisconnectWatch
cancel color w = elim w.watching [
  | none ↦ (false, w)
  | some c ↦
      if color_eq c color
      then (true, record w { watching = none; pending = none; frozen = false })
      else (false, w)
]

unfoldable pub clear : DisconnectWatch → DisconnectWatch
clear w = record w { watching = none; pending = none; frozen = false }

pub data WatchCall : Type 0 where
  reports : PieceColor → WatchCall
  advances : ℕ → WatchCall
  cancels : PieceColor → WatchCall
  clears : WatchCall

unfoldable pub call : WatchCall → DisconnectWatch → DisconnectWatch
unfolding report_disconnect advance cancel clear
call (reports color) w = report_disconnect color w
call (advances now) w = (advance now w).1
call (cancels color) w = (cancel color w).1
call clears w = clear w

unfoldable pub call_all : List WatchCall → DisconnectWatch → DisconnectWatch
unfolding call
call_all [] w = w
call_all (c ∷ cs) w = call_all cs (call c w)
