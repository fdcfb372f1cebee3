-- ===== src/RealTime/Observers/GameOver.antt =====
-- game_over_observer.cpp, and what its state says of the arrivals that it has seen.
use kung_fu_chess.Prelude.{
  ℕ, ◌≡◌, refl, Bool, true, false, not, ◌&&◌, ◌||◌, ◌==◌, if◌then◌else◌, Option, none, some, List,
  [], ◌∷◌, arith,
}
use kung_fu_chess.Model.{PieceColor, color_eq}
use kung_fu_chess.RealTime.Collision.{ArrivalEvent, captured_a_king}

pub record GameOverObserver : Type 0 where
  pub winner : Option PieceColor
  pub winner_decided_at_ms : ℕ
  pub draw : Bool

abbrev pub new_observer : GameOverObserver
new_observer = record { winner = none; winner_decided_at_ms = 0; draw = false }

-- The part of `on_arrival` behind its early return, by what the winner is so far.
unfoldable pub on_king_captured :
    Option PieceColor → GameOverObserver → ArrivalEvent → GameOverObserver
on_king_captured none o e = record o {
  winner = some e.moved_piece.color;
  winner_decided_at_ms = e.arrived_at_ms;
}
on_king_captured (some w) o e =
    if not (color_eq w e.moved_piece.color) && (e.arrived_at_ms == o.winner_decided_at_ms)
    then record o { winner = none; draw = true }
    else o

unfoldable pub on_arrival : GameOverObserver → ArrivalEvent → GameOverObserver
unfolding on_king_captured
on_arrival o e = if o.draw || not (captured_a_king e) then o else on_king_captured o.winner o e

unfoldable pub is_game_over : GameOverObserver → Bool
is_game_over o = o.draw || (elim o.winner [ none ↦ false | some _ ↦ true ])

-- The observer after a list of arrivals.
unfoldable pub observe : GameOverObserver → List ArrivalEvent → GameOverObserver
unfolding on_arrival
observe o [] = o
observe o (e ∷ es) = observe (on_arrival o e) es

-- Another side's capture of a king at the same instant as the first.
abbrev pub rivals : ArrivalEvent → ArrivalEvent → Bool
rivals first e =
    captured_a_king e
    && (not (color_eq first.moved_piece.color e.moved_piece.color)
        && (e.arrived_at_ms == first.arrived_at_ms))

abbrev pub any_rival : ArrivalEvent → List ArrivalEvent → Bool
any_rival first [] = false
any_rival first (e ∷ es) = rivals first e || any_rival first es

abbrev won_by : ArrivalEvent → GameOverObserver
won_by first = record {
  winner = some first.moved_piece.color;
  winner_decided_at_ms = first.arrived_at_ms;
  draw = false;
}

abbrev drawn_at : ArrivalEvent → GameOverObserver
drawn_at first = record { winner = none; winner_decided_at_ms = first.arrived_at_ms; draw = true }

-- The verdict on a whole list: its first king capture decides, unless a rival's is simultaneous.
abbrev pub verdict : List ArrivalEvent → GameOverObserver
verdict [] = new_observer
verdict (e ∷ es) =
    if captured_a_king e then (if any_rival e es then drawn_at e else won_by e) else verdict es

observe-drawn :
    (first : ArrivalEvent) (es : List ArrivalEvent) → observe (drawn_at first) es ≡ drawn_at first
unfolding observe on_arrival
observe-drawn first [] = refl
observe-drawn first (e ∷ es) = observe-drawn first es

observe-won :
    (first : ArrivalEvent) (es : List ArrivalEvent)
    → observe (won_by first) es ≡ (if any_rival first es then drawn_at first else won_by first)
unfolding observe on_arrival
observe-won first [] = refl
observe-won first (e ∷ es) = ground (arith, observe-won first es, observe-drawn first es)

-- After any list of arrivals the observer holds the verdict on it: nobody if no king fell, a draw
-- if a king also fell to the other side at the instant of the first such capture, and else the
-- side of that first capture, whatever else arrives before or after.
pub observe-verdict : (es : List ArrivalEvent) → observe new_observer es ≡ verdict es
unfolding observe on_arrival
observe-verdict [] = refl
observe-verdict (e ∷ es) = ground (arith, observe-won e es, observe-verdict es)
