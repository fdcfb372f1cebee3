-- ===== src/Scripts/Telling.antt =====
-- What each turn of a game at one board adds to what it has published (logic/src/kfc/texttests/game.cpp).
use kung_fu_chess.Prelude.{
  ℕ, ◌≡◌, refl, sym, ap, ◌∙◌, subst, Bool, true, false, ◌||◌, not, ◌&&◌, Bool-cases, inl, inr,
  if◌then◌else◌, Option, List, [], ◌∷◌, ◌++◌, map, Result, Returns, arith,
}
use mathlib.Core.List.{append-nil, append_assoc}
use kung_fu_chess.Model.{PieceColor}
use kung_fu_chess.RealTime.{ArrivalEvent}
use kung_fu_chess.RealTime.Observers.{
  GameOverObserver, new_observer, observe, is_game_over, on_arrival, verdict, observe-verdict,
}
use kung_fu_chess.Engine.{GameCore, any_king_captured}
use kung_fu_chess.Scripts.Game.{
  Game, GameEvent, game_started, arrived, game_ended, verdict_of, after_step, wait_game,
}
use kung_fu_chess.Engine
use kung_fu_chess.Engine.Endings.{wait-arrivals}
use kung_fu_chess.Engine.Safety.{IsSound, wait-IsSound}
use kung_fu_chess.Scripts.Playing.{IsPlayable, Plays, click_game-Plays, jump_game-Plays}
use kung_fu_chess.Scripts.Turns.{
  reported, Turn, clicks, jumps, waits, is_wait, silent, take_turn, story, HasSeen,
}

observe-append :
    (o : GameOverObserver) (xs ys : List ArrivalEvent)
    → observe o (xs ++ ys) ≡ observe (observe o xs) ys
unfolding observe
observe-append o [] ys = refl
observe-append o (x ∷ xs) ys = observe-append (on_arrival o x) xs ys

any_king_captured-append :
    (xs ys : List ArrivalEvent)
    → any_king_captured (xs ++ ys) ≡ any_king_captured xs || any_king_captured ys
unfolding any_king_captured
any_king_captured-append [] ys = refl
any_king_captured-append (x ∷ xs) ys = ground (arith, any_king_captured-append xs ys)

is_game_over-verdict : (es : List ArrivalEvent) → is_game_over (verdict es) ≡ any_king_captured es
unfolding is_game_over any_king_captured
is_game_over-verdict [] = refl
is_game_over-verdict (e ∷ es) = ground (arith, is_game_over-verdict es)

is_game_over-observe :
    (es : List ArrivalEvent) → is_game_over (observe new_observer es) ≡ any_king_captured es
is_game_over-observe es = ap (λ o. is_game_over o) (observe-verdict es) ∙ is_game_over-verdict es

-- A wait of a game, of which the engine has answered arrivals and a core.
abbrev Waited : Game → List ArrivalEvent → GameCore → Type 0
Waited g es core =
    (core.is_game_over ≡ g.ended || any_king_captured es) × (g.ended ≡ true → es ≡ [])

abbrev opening : Bool → List GameEvent
opening started = if started then game_started ∷ [] else []

abbrev closing : Bool → Option PieceColor → List GameEvent
closing ended winner = if ended then game_ended winner ∷ [] else []

abbrev arrivals_of : List ArrivalEvent → List GameEvent
arrivals_of es = map (λ e. arrived e) es

arrivals_of-append :
    (xs ys : List ArrivalEvent) → arrivals_of (xs ++ ys) ≡ arrivals_of xs ++ arrivals_of ys
arrivals_of-append [] ys = refl
arrivals_of-append (x ∷ xs) ys = ap (λ zs. arrived x ∷ zs) (arrivals_of-append xs ys)

-- A wait tells of the start if it is the first, and of the end if it is that which ends the game.
told :
    (started ended over : Bool) (seen es : List ArrivalEvent) (v v' : Option PieceColor)
    → (started ≡ false → seen ≡ [])
    → (ended ≡ true → (started ≡ true) × (es ≡ []) × (v' ≡ v))
    → opening true
        ++ (arrivals_of (seen ++ es) ++ closing (if not ended && over then true else ended) v')
      ≡ (opening started ++ (arrivals_of seen ++ closing ended v))
        ++ ((if started then [] else game_started ∷ [])
            ++ (arrivals_of es ++ closing (not ended && over) v'))
told true true over seen es v v' first last =
    let (_, nothing, same) = last refl in
    rw (nothing, same, append-nil seen)
      (sym (append-nil (game_started ∷ (arrivals_of seen ++ game_ended v ∷ []))))
told true false over seen es v v' first last =
    let plain : (if over then true else false) ≡ over = ground arith in
    rw (plain, append-nil (arrivals_of seen))
      (ap (λ zs. game_started ∷ zs)
        (ap (λ zs. zs ++ closing over v') (arrivals_of-append seen es)
          ∙ append_assoc (arrivals_of seen) (arrivals_of es) (closing over v')))
told false true over seen es v v' first last = let no : false ≡ true = (last refl).0 in absurd (cc)
told false false over seen es v v' first last =
    let plain : (if over then true else false) ≡ over = ground arith in rw (plain, first refl) refl

module _ (g : Game) (seen es : List ArrivalEvent) (core : GameCore) (h : HasSeen seen g)
    (w : Waited g es core) where
  all_seen : observe g.game_over es ≡ observe new_observer (seen ++ es)
  all_seen = ap (λ o. observe o es) h.observed ∙ sym (observe-append new_observer seen es)

  over_now : is_game_over (observe g.game_over es) ≡ g.ended || any_king_captured es
  over_now =
      ap (λ o. is_game_over o) all_seen
      ∙ is_game_over-observe (seen ++ es)
      ∙ any_king_captured-append seen es
      ∙ ap (λ b. b || any_king_captured es) (sym h.ended)

  ends_now :
      (if not g.ended && is_game_over (observe g.game_over es) then true else g.ended)
      ≡ g.ended || any_king_captured es
  ends_now = rw over_now (ground arith)

  after_step-HasSeen : HasSeen (seen ++ es) (after_step g (es, core)).1
  unfolding after_step
  after_step-HasSeen = record {
    first = λ e. absurd (cc);
    observed = all_seen;
    ended =
        ends_now
        ∙ ap (λ b. b || any_king_captured es) h.ended
        ∙ sym (any_king_captured-append seen es);
    over = w.0 ∙ sym ends_now;
  }

  ended_late : g.ended ≡ true → g.started ≡ true
  unfolding any_king_captured
  ended_late e = elim (Bool-cases g.started) [
    | inl s ↦ s
    | inr s ↦
        let none_yet : any_king_captured seen ≡ false = ap (λ l. any_king_captured l) (h.first s) in
        let ends = h.ended in absurd (cc)
  ]

  after_step-story :
      story (after_step g (es, core)).1 (seen ++ es) ≡ story g seen ++ (after_step g (es, core)).0
  unfolding after_step observe
  after_step-story =
      told g.started g.ended (is_game_over (observe g.game_over es)) seen es
        (verdict_of g.game_over) (verdict_of (observe g.game_over es)) h.first
        (λ e. (ended_late e, w.1 e, ap (λ l. verdict_of (observe g.game_over l)) (w.1 e)))

-- A game that can be played, with what it has seen.
abbrev pub IsShown : List ArrivalEvent → Game → Type 0
IsShown seen g = IsPlayable g × HasSeen seen g

-- A turn that returns a playable game, which has published what the engine reported.
abbrev pub Tells : Turn → List ArrivalEvent → Game → List GameEvent × Game → Type 0
Tells t seen g (events, k) =
    IsShown (seen ++ reported t g) k
    × (story k (seen ++ reported t g) ≡ story g seen ++ events)
    × (k.started ≡ g.started || is_wait t)

silent-HasSeen :
    (seen : List ArrivalEvent) (g k : Game)
    → HasSeen seen g
    → k.core.is_game_over ≡ g.core.is_game_over
    → k.started ≡ g.started
    → k.ended ≡ g.ended
    → k.game_over ≡ g.game_over
    → HasSeen (seen ++ []) k
silent-HasSeen seen g k h over started ended observed =
    subst (λ l. HasSeen l k) (sym (append-nil seen))
      (record {
        first = λ e. h.first (sym started ∙ e);
        observed = observed ∙ h.observed;
        ended = ended ∙ h.ended;
        over = over ∙ h.over ∙ sym ended;
      })

waits_lem :
    (ms : ℕ) (seen : List ArrivalEvent) (g : Game)
    → IsSound g.core
    → HasSeen seen g
    → Returns {0, 0} (λ (es, core). IsSound core × Waited g es core) (Engine.wait ms g.core)
waits_lem ms seen g s h =
    let ((es, core), e, safe) = wait-IsSound g.factory g.core s ms in
    let (flag, none_late) = wait-arrivals ms g.core core es e in
    (
      (es, core),
      e,
      (safe, (flag ∙ ap (λ b. b || any_king_captured es) h.over, λ x. none_late (h.over ∙ x))),
    )

silent-Tells :
    {A : Type 0} (t : Turn) (seen : List ArrivalEvent) (g : Game) (r : Result (A × Game))
    → IsShown seen g
    → reported t g ≡ []
    → is_wait t ≡ false
    → Returns (Plays g) r
    → Returns (Tells t seen g) (silent r)
silent-Tells t seen g r (p, h) none idle ((a, k), e, (p', over, started, ended, observed)) =
    rw none (
      ([], k),
      rw e refl,
      (
        (p', silent-HasSeen seen g k h over started ended observed),
        simp (append-nil seen, append-nil (story g seen), started, ended, observed),
        ground arith,
      ),
    )

waits-Tells :
    (ms : ℕ) (seen : List ArrivalEvent) (g : Game)
    → IsShown seen g
    → Returns (Tells (waits ms) seen g) (wait_game ms g)
unfolding wait_game
waits-Tells ms seen g ((s, k), h) =
    let ((es, core), e, (safe, waited)) = waits_lem ms seen g s h in
    let same : reported (waits ms) g ≡ es = rw (reported, e) refl in
    (
      after_step g (es, core),
      rw e refl,
      (
        ((safe, k), rw same (after_step-HasSeen g seen es core h waited)),
        rw same (after_step-story g seen es core h waited),
        ground arith,
      ),
    )

pub take_turn-Tells :
    (t : Turn) (seen : List ArrivalEvent) (g : Game)
    → IsShown seen g
    → Returns (Tells t seen g) (take_turn t g)
unfolding take_turn
take_turn-Tells (clicks x y) seen g ((s, k), h) =
    silent-Tells (clicks x y) seen g _ ((s, k), h) refl refl (click_game-Plays g s x y k)
take_turn-Tells (jumps x y) seen g ((s, k), h) =
    silent-Tells (jumps x y) seen g _ ((s, k), h) refl refl (jump_game-Plays g s x y k)
take_turn-Tells (waits ms) seen g h = waits-Tells ms seen g h
