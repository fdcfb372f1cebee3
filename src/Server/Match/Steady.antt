-- ===== src/Server/Match/Steady.antt =====
-- Every part of a tick returns, and keeps the board of a match sound.
use kung_fu_chess.Prelude.{
  ℕ, ◌≡◌, refl, sym, ◌∙◌, subst, Bool, true, false, not, ◌&&◌, Bool-cases, inl, inr, Option, none,
  some, List, [], ◌∷◌, Returns, >>=-Returns, arith,
}
use kung_fu_chess.Model.{PieceColor}
use kung_fu_chess.Rules.{not_your_piece}
use kung_fu_chess.RealTime.{ArrivalEvent}
use kung_fu_chess.RealTime.Observers.{GameOverObserver, new_observer, observe}
use kung_fu_chess.Engine.{GameCore, MoveResult}
use kung_fu_chess.Engine.Safety.{IsSound, request_move-IsSound, request_jump-IsSound, wait-IsSound}
use kung_fu_chess.Server.Audience.{MatchAudience, CloseFn, close_seat, release_all}
use kung_fu_chess.Server.Messages.{
  ClientMessage, login, play, create_room, resign, join_room, move_request, jump_request,
}
use kung_fu_chess.Server.Match.State.{
  Match, MatchState, Effect, state, GameEndReason, report_result, owns_piece_at,
}
use kung_fu_chess.Server.Match.Cases.{apply_in_cases}
use kung_fu_chess.Server.Match.Apply.{reject, resigns, answer, command, apply_in, apply, apply_all}
use kung_fu_chess.Server.Match.Ticking.{
  then_do, is_running, advance_board, after_wait, announce_ending, announce_events,
  announce_resignation, announce_tick, advance_disconnect_countdown, schedule_release,
  release_participants, release_if_due, settle, tick, release_is_due,
}

-- No seat has an empty close function.
abbrev pub Closable : MatchAudience → Type 0
Closable a = ¬ (a.white_close ≡ some none) × ¬ (a.black_close ≡ some none)

-- The parts of a tick that speak leave the board and the audience alone.
abbrev Same : Match → List Effect × Match → Type 0
Same m r = (r.1.core ≡ m.core) × (r.1.audience ≡ m.audience)

then_do-Same :
    (m : Match) (f : Match → List Effect × Match) (r : List Effect × Match)
    → Same m r
    → ((n : Match) → Same n (f n))
    → Same m (then_do f r)
then_do-Same m f (es, n) (c, a) h = ((h n).0 ∙ c, (h n).1 ∙ a)

report_result-Same :
    (reason : GameEndReason) (winner : Option PieceColor) (m : Match)
    → Same m (report_result reason winner m)
unfolding report_result
report_result-Same reason winner m = ground arith

announce_ending-Same : (o : GameOverObserver) (m : Match) → Same m (announce_ending o m)
unfolding announce_ending report_result
announce_ending-Same o m = ground arith

announce_events-Same : (es : List ArrivalEvent) (m : Match) → Same m (announce_events es m)
unfolding announce_events
announce_events-Same [] m = (refl, refl)
announce_events-Same (e ∷ es) m = announce_ending-Same (observe new_observer (e ∷ es)) m

announce_resignation-Same :
    (o : Option (Option PieceColor)) (m : Match) → Same m (announce_resignation o m)
unfolding announce_resignation report_result
announce_resignation-Same o m = ground arith

countdown-Same : (now : ℕ) (m : Match) → Same m (advance_disconnect_countdown now m)
unfolding advance_disconnect_countdown announce_tick report_result
countdown-Same now m = ground arith

schedule-Same : (now : ℕ) (m : Match) → Same m (schedule_release now m)
unfolding schedule_release
schedule-Same now m = ground arith

settle-Same : (now : ℕ) (es : List ArrivalEvent) (m : Match) → Same m (settle now es m)
unfolding settle
settle-Same now es m =
    let said = announce_events es m in
    let resigned = then_do (λ n. announce_resignation n.pending_game_over n) said in
    let counted = then_do (advance_disconnect_countdown now) resigned in
    then_do-Same m (schedule_release now) counted
      (then_do-Same m (advance_disconnect_countdown now) resigned
        (then_do-Same m (λ n. announce_resignation n.pending_game_over n) said
          (announce_events-Same es m) (λ n. announce_resignation-Same n.pending_game_over n))
        (countdown-Same now))
      (schedule-Same now)

-- Everyone can be let go.
close_seat-Returns :
    (o : Option CloseFn) → ¬ (o ≡ some none) → Returns {0, 0} (λ l. Unit) (close_seat o)
unfolding close_seat
close_seat-Returns none h = ([], refl, tt)
close_seat-Returns (some none) h = absurd (h refl)
close_seat-Returns (some (some s)) h = (s ∷ [], refl, tt)

release_all-Returns : (a : MatchAudience) → Closable a → Returns {0, 0} (λ l. Unit) (release_all a)
unfolding release_all
release_all-Returns a (w, b) =
    >>=-Returns _ _ (close_seat-Returns a.white_close w)
      (λ ws _. >>=-Returns _ _ (close_seat-Returns a.black_close b) (λ bs _. (_, refl, tt)))

abbrev pub IsSteady : Match → Type 0
IsSteady m = IsSound m.core × Closable m.audience

abbrev pub Steady : List Effect × Match → Type 0
Steady r = IsSteady r.1

release-IsSteady : (now : ℕ) (m : Match) → IsSteady m → Returns Steady (release_if_due now m)
unfolding release_if_due release_participants
release-IsSteady now m s = elim (Bool-cases (not m.released && release_is_due now m.release_at)) [
  | inl due ↦ simp due (>>=-Returns _ _ (release_all-Returns m.audience s.1) (λ l _. (_, refl, s)))
  | inr early ↦ simp early (([], m), refl, s)
]

answer-IsSteady :
    (from : PieceColor) (id : Option ℕ) (m : Match) (r : MoveResult × GameCore)
    → Closable m.audience
    → IsSound r.1
    → Steady (answer from id m r)
unfolding answer reject
answer-IsSteady from id m (result, core) a s = elim (Bool-cases result.is_accepted) [
  | inl e ↦ simp e (s, a)
  | inr e ↦ simp e (s, a)
]

command-IsSteady :
    (from : PieceColor) (message : ClientMessage) (m : Match)
    → IsSteady m
    → Returns Steady (command from message m)
unfolding command reject
command-IsSteady from (move_request a b) m s = elim (Bool-cases (owns_piece_at from a m)) [
  | inl e ↦ simp e (
      >>=-Returns _ _ (request_move-IsSound m.factory m.core s.0 a b)
        (λ r h. (_, refl, answer-IsSteady from _ m r s.1 h)))
  | inr e ↦ simp e (reject from not_your_piece m, refl, s)
]
command-IsSteady from (jump_request cell) m s = elim (Bool-cases (owns_piece_at from cell m)) [
  | inl e ↦ simp e (
      >>=-Returns _ _ (request_jump-IsSound m.factory m.core s.0 cell)
        (λ r h. (_, refl, answer-IsSteady from _ m r s.1 h)))
  | inr e ↦ simp e (reject from not_your_piece m, refl, s)
]
command-IsSteady from (login _ _) m s = (([], m), refl, s)
command-IsSteady from play m s = (([], m), refl, s)
command-IsSteady from create_room m s = (([], m), refl, s)
command-IsSteady from resign m s = (([], m), refl, s)
command-IsSteady from (join_room _) m s = (([], m), refl, s)

apply_in-IsSteady :
    (t : MatchState) (from : PieceColor) (message : ClientMessage) (m : Match)
    → IsSteady m
    → Returns Steady (apply_in t from message m)
unfolding reject resigns
apply_in-IsSteady t from message m s =
    apply_in_cases (Returns Steady) from m (_, refl, s) (λ why. (_, refl, s)) t message
      (λ _. (_, refl, s)) (λ _. command-IsSteady from message m s)

apply_all-IsSteady :
    (cs : List (PieceColor × ClientMessage)) (m : Match)
    → IsSteady m
    → Returns Steady (apply_all cs m)
unfolding apply_all apply
apply_all-IsSteady [] m s = (([], m), refl, s)
apply_all-IsSteady ((from, message) ∷ cs) m s =
    >>=-Returns _ _ (apply_in-IsSteady (state m) from message m s)
      (λ r h. >>=-Returns _ _ (apply_all-IsSteady cs r.1 h) (λ q k. (_, refl, k)))

advance_board-IsSteady :
    (run_it : Bool) (ms : ℕ) (m : Match)
    → IsSteady m
    → Returns (λ (r : List ArrivalEvent × Match). IsSteady r.1) (advance_board run_it ms m)
unfolding advance_board
advance_board-IsSteady false ms m s = (([], m), refl, s)
advance_board-IsSteady true ms m s =
    >>=-Returns _ _ (wait-IsSound m.factory m.core s.0 ms) (λ r h. (after_wait m r, refl, (h, s.1)))

settle-IsSteady :
    (now : ℕ) (es : List ArrivalEvent) (m : Match) → IsSteady m → Steady (settle now es m)
settle-IsSteady now es m s =
    let (c, a) = settle-Same now es m in (subst IsSound (sym c) s.0, subst Closable (sym a) s.1)

pub tick-IsSteady : (now ms : ℕ) (m : Match) → IsSteady m → Returns Steady (tick now ms m)
unfolding tick
tick-IsSteady now ms m s =
    >>=-Returns _ _ (apply_all-IsSteady m.queue (record m { queue = []; dropped_commands = 0 }) s)
      (λ r h. >>=-Returns _ _ (advance_board-IsSteady (is_running (state m)) ms r.1 h) (λ q k.
        >>=-Returns _ _
          (release-IsSteady now (settle now q.0 q.1).1 (settle-IsSteady now q.0 q.1 k))
          (λ v l. (_, refl, l))))
