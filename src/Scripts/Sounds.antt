-- ===== src/Scripts/Sounds.antt =====
-- What is heard of a whole game through a SoundBoard (logic/src/kfc/audio/sound_board.cpp) on the game's bus.
use kung_fu_chess.Prelude.{
  ◌≡◌, refl, sym, ap, subst, ok, err, ◌∙◌, ◌↔◌, Bool, true, false, ◌||◌, Bool-cases, inl, inr,
  if◌then◌else◌, List, [], ◌∷◌, ◌++◌, map, Returns, arith,
}
use mathlib.Core.List.{append-nil, append_assoc}
use kung_fu_chess.Model.Board.{Board}
use kung_fu_chess.RealTime.Safety.Invariant.{IsCoherent}
use kung_fu_chess.RealTime.{MotionFactory, ArrivalEvent}
use kung_fu_chess.RealTime.Observers.{observe, verdict, observe-verdict}
use kung_fu_chess.Engine.{any_king_captured}
use kung_fu_chess.Engine.Endings.{KingAmong, any_king_captured_iff}
use kung_fu_chess.Engine.Safety.{make_game_core-IsSound}
use kung_fu_chess.Scripts.Game.{
  Game, GameEvent, game_started, arrived, game_ended, verdict_of, new_game,
}
use kung_fu_chess.Scripts.Bus.{
  EventBus, Sound, start_sound, end_sound, arrival_sound, new_bus, publish_event, publish_all,
  sound_board, subscribe, deliver,
}
use kung_fu_chess.Scripts.Turns.{
  reported, arrivals_along, Turn, is_wait, take_turn, play_turns, story,
}
use kung_fu_chess.Scripts.Telling.{IsShown, take_turn-Tells}

abbrev any_wait : List Turn → Bool
any_wait [] = false
any_wait (t ∷ ts) = is_wait t || any_wait ts

-- Every sound of a game, if those have been its arrivals.
abbrev pub sounds_of : Game → List ArrivalEvent → List Sound
sounds_of g arrivals =
    (if g.started then start_sound ∷ [] else [])
    ++ (map (λ e. arrival_sound e.captured_piece) arrivals
        ++ (if g.ended then end_sound ∷ [] else []))

abbrev pub sound_for : GameEvent → Sound
sound_for game_started = start_sound
sound_for (arrived e) = arrival_sound e.captured_piece
sound_for (game_ended winner) = end_sound

module _ {W : Type 0} (play : Sound → W → W) where
  -- A player is made to play one sound after another.
  abbrev pub play_each : List Sound → W → W
  play_each [] w = w
  play_each (s ∷ ss) w = play_each ss (play s w)

  abbrev board : EventBus W
  board = sound_board play new_bus

  publish_event-sound_for :
      (event : GameEvent) (w : W) → publish_event board event w ≡ play (sound_for event) w
  unfolding publish_event deliver sound_board subscribe
  publish_event-sound_for game_started w = refl
  publish_event-sound_for (arrived e) w = refl
  publish_event-sound_for (game_ended winner) w = refl

  publish_all-sounds :
      (events : List GameEvent) (w : W)
      → publish_all board events w ≡ play_each (map sound_for events) w
  unfolding publish_all
  publish_all-sounds [] w = refl
  publish_all-sounds (event ∷ events) w =
      ap (λ v. publish_all board events v) (publish_event-sound_for event w)
      ∙ publish_all-sounds events (play (sound_for event) w)

publish_all-append :
    {W : Type 0} (bus : EventBus W) (xs ys : List GameEvent) (w : W)
    → publish_all bus (xs ++ ys) w ≡ publish_all bus ys (publish_all bus xs w)
unfolding publish_all
publish_all-append bus [] ys w = refl
publish_all-append bus (x ∷ xs) ys w = publish_all-append bus xs ys (publish_event bus x w)

-- Turns that have been played on a bus, from where the handlers' state is that of the game's events so far.
abbrev Played :
    {W : Type 0} → EventBus W → W → List Turn → List ArrivalEvent → Game → W × Game → Type 0
Played bus w ts seen g (v, k) =
    IsShown (seen ++ arrivals_along ts g) k
    × (v ≡ publish_all bus (story k (seen ++ arrivals_along ts g)) w)
    × (k.started ≡ g.started || any_wait ts)

arrivals_along_step :
    (t : Turn) (ts : List Turn) (g : Game) (events : List GameEvent) (k : Game)
    → take_turn t g ≡ ok (events, k)
    → arrivals_along (t ∷ ts) g ≡ reported t g ++ arrivals_along ts k
arrivals_along_step t ts g events k e =
    ap (λ x. reported t g ++ (elim x [ ok (es, j) ↦ arrivals_along ts j | err f ↦ [] ])) e

play_turns-Played :
    {W : Type 0} (bus : EventBus W) (w v : W) (ts : List Turn) (g : Game) (seen : List ArrivalEvent)
    → IsShown seen g
    → v ≡ publish_all bus (story g seen) w
    → Returns (Played bus w ts seen g) (play_turns bus ts v g)
unfolding play_turns
play_turns-Played bus w v [] g seen h e = rw (append-nil seen) ((v, g), refl, (h, e, ground arith))
play_turns-Played bus w v (t ∷ ts) g seen h e =
    let ((events, k), returned, (shown, told, started)) = take_turn-Tells t seen g h in
    let es = reported t g in
    let heard : publish_all bus events v ≡ publish_all bus (story k (seen ++ es)) w =
      ap (λ u. publish_all bus events u) e
      ∙ sym (publish_all-append bus (story g seen) events w)
      ∙ ap (λ l. publish_all bus l w) (sym told) in
    let (r, returned', (shown', heard', started')) =
      play_turns-Played bus w (publish_all bus events v) ts k (seen ++ es) shown heard in
    let all : seen ++ arrivals_along (t ∷ ts) g ≡ (seen ++ es) ++ arrivals_along ts k =
      ap (λ l. seen ++ l) (arrivals_along_step t ts g events k returned)
      ∙ sym (append_assoc seen es (arrivals_along ts k)) in
    (
      r,
      rw returned returned',
      (
        subst (λ l. IsShown l r.1) (sym all) shown',
        heard' ∙ ap (λ l. publish_all bus (story r.1 l) w) (sym all),
        started' ∙ ap (λ b. b || any_wait ts) started ∙ ground arith,
      ),
    )

story-sounds_of :
    (g : Game) (seen : List ArrivalEvent) → map sound_for (story g seen) ≡ sounds_of g seen
story-sounds_of g seen = elim (Bool-cases g.started) [
  | inl e ↦ rw e (ap (λ ss. start_sound ∷ ss) (rest seen))
  | inr e ↦ rw e (rest seen)
]
  where
    rest :
        (es : List ArrivalEvent)
        → map sound_for (
            map (λ e. arrived e) es
            ++ (if g.ended then game_ended (verdict_of g.game_over) ∷ [] else []))
          ≡ map (λ e. arrival_sound e.captured_piece) es ++ (if g.ended then end_sound ∷ [] else [])
    rest [] = ground arith
    rest (e ∷ es) = ap (λ ss. arrival_sound e.captured_piece ∷ ss) (rest es)

new_game-IsShown : (b : Board) (f : MotionFactory) → IsCoherent b → IsShown [] (new_game b f)
unfolding new_game observe any_king_captured
new_game-IsShown b f coherent = (
  (make_game_core-IsSound f b coherent, tt),
  record { first = λ e. refl; observed = refl; ended = refl; over = refl },
)

-- What a player has been made to play in a game of these turns, and how the game stands.
abbrev pub Hears :
    {W : Type 0} → (Sound → W → W) → W → List Turn → List ArrivalEvent → W × Game → Type 0
Hears play w ts seen (v, g) =
    (v ≡ play_each play (sounds_of g seen) w)
    × (g.started ≡ any_wait ts)
    × ((g.ended ≡ true) ↔ KingAmong seen)
    × (g.game_over ≡ verdict seen)

-- Over a coherent board, with any factory and any player, every sequence of clicks, jumps and waits returns, and
-- the player has played, in this order and nothing else: the start, if there has been a wait; the sound of each of the
-- arrivals that the engine has reported in the waits, a capture's or a move's; and the end, if a king was captured among
-- them, when the winner is the one whom the verdict on them names.
pub play_turns-Hears :
    {W : Type 0} (play : Sound → W → W) (w : W) (f : MotionFactory) (b : Board) (ts : List Turn)
    → IsCoherent b
    → Returns {0, 0}
        (Hears play w ts (arrivals_along ts (new_game b f)))
        (play_turns (sound_board play new_bus) ts w (new_game b f))
unfolding new_game publish_all
play_turns-Hears play w f b ts coherent =
    let bus : EventBus _ = sound_board play new_bus in
    let seen = arrivals_along ts (new_game b f) in
    let ((v, g), e, ((_, h), heard, started)) =
      play_turns-Played bus w w ts (new_game b f) [] (new_game-IsShown b f coherent) refl in
    (
      (v, g),
      e,
      (
        heard
            ∙ publish_all-sounds play (story g seen) w
            ∙ ap (λ ss. play_each play ss w) (story-sounds_of g seen),
        started,
        (
          λ x. (any_king_captured_iff seen).0 (sym h.ended ∙ x),
          λ x. h.ended ∙ (any_king_captured_iff seen).1 x,
        ),
        h.observed ∙ observe-verdict seen,
      ),
    )
