-- ===== src/Io/Logged.antt =====
-- What the log of moves has after any arrivals.
use kung_fu_chess.Prelude.{
  ◌≡◌, refl, sym, ap, ◌∙◌, if◌then◌else◌, List, [], ◌∷◌, ◌++◌, map, Bool-cases, inl, inr,
}
use mathlib.Core.List.{append-nil, append_assoc}
use kung_fu_chess.Model.{PieceColor, white, black, color_eq}
use kung_fu_chess.RealTime.{ArrivalEvent}
use kung_fu_chess.Io.MoveLog.{
  MoveLogObserver, move_text, entry_for, log_for, log_arrival, logged_moves, logged_entries,
}

abbrev pub log_all : List ArrivalEvent → MoveLogObserver → MoveLogObserver
log_all [] o = o
log_all (e ∷ events) o = log_all events (log_arrival e o)

-- The arrivals of one side's pieces.
abbrev pub of_side : PieceColor → List ArrivalEvent → List ArrivalEvent
of_side color [] = []
of_side color (e ∷ events) =
    if color_eq e.moved_piece.color color then e ∷ of_side color events else of_side color events

log_height :
    (c : PieceColor) (e : ArrivalEvent) (o : MoveLogObserver)
    → (log_for c e o).board_height ≡ o.board_height
unfolding log_for
log_height white e o = refl
log_height black e o = refl

-- The arrival, if it is one of that side.
abbrev its_own : PieceColor → PieceColor → ArrivalEvent → List ArrivalEvent
its_own color side e = if color_eq side color then e ∷ [] else []

moves_step :
    (color side : PieceColor) (e : ArrivalEvent) (o : MoveLogObserver)
    → logged_moves color (log_for side e o)
      ≡ logged_moves color o ++ map move_text (its_own color side e)
unfolding logged_moves log_for
moves_step white white e o = refl
moves_step white black e o = sym (append-nil o.white_moves)
moves_step black white e o = sym (append-nil o.black_moves)
moves_step black black e o = refl

entries_step :
    (color side : PieceColor) (e : ArrivalEvent) (o : MoveLogObserver)
    → logged_entries color (log_for side e o)
      ≡ logged_entries color o ++ map (λ a. entry_for a o.board_height) (its_own color side e)
unfolding logged_entries log_for
entries_step white white e o = refl
entries_step white black e o = sym (append-nil o.white_entries)
entries_step black white e o = sym (append-nil o.black_entries)
entries_step black black e o = refl

of_side_step :
    {B : Type 0} (f : ArrivalEvent → B) (color : PieceColor) (e : ArrivalEvent)
    (events : List ArrivalEvent) (xs : List B)
    → (xs ++ map f (its_own color e.moved_piece.color e)) ++ map f (of_side color events)
      ≡ xs ++ map f (of_side color (e ∷ events))
of_side_step f color e events xs = elim (Bool-cases (color_eq e.moved_piece.color color)) [
  | inl own ↦ rw own (append_assoc xs (f e ∷ []) (map f (of_side color events)))
  | inr other ↦ rw other (ap (λ ys. ys ++ map f (of_side color events)) (append-nil xs))
]

-- After any arrivals the log of a side has, behind what it had, a line and an entry for each arrival of that
-- side's pieces, in order, and none of the other side's.
pub log_all-logged :
    (color : PieceColor) (events : List ArrivalEvent) (o : MoveLogObserver)
    → (logged_moves color (log_all events o)
        ≡ logged_moves color o ++ map move_text (of_side color events))
      × (logged_entries color (log_all events o)
          ≡ logged_entries color o ++ map (λ e. entry_for e o.board_height) (of_side color events))
unfolding log_arrival
log_all-logged color [] o =
    (sym (append-nil (logged_moves color o)), sym (append-nil (logged_entries color o)))
log_all-logged color (e ∷ events) o =
    let side = e.moved_piece.color in
    let (moves, entries) = log_all-logged color events (log_for side e o) in
    (
      moves
          ∙ ap (λ xs. xs ++ map move_text (of_side color events)) (moves_step color side e o)
          ∙ of_side_step move_text color e events (logged_moves color o),
      entries
          ∙ ap
              (λ h.
                logged_entries color (log_for side e o)
                ++ map (λ a. entry_for a h) (of_side color events))
              (log_height side e o)
          ∙ ap (λ xs. xs ++ map (λ a. entry_for a o.board_height) (of_side color events))
              (entries_step color side e o)
          ∙ of_side_step (λ a. entry_for a o.board_height) color e events (logged_entries color o),
    )
