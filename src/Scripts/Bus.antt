-- ===== src/Scripts/Bus.antt =====
-- logic/include/kfc/events/event_bus.hpp, and logic/src/kfc/audio/sound_board.cpp, which subscribes to it.
use kung_fu_chess.Prelude.{
  Bool, true, false, if◌then◌else◌, Option, none, some, List, [], ◌∷◌, ◌++◌,
}
use kung_fu_chess.RealTime.{ArrivalEvent}
use kung_fu_chess.Scripts.Game.{GameEvent, game_started, arrived, game_ended}

-- std::type_index of an event's type.
pub data EventType : Type 0 where
  started_type arrival_type ended_type : EventType

abbrev pub type_of : GameEvent → EventType
type_of game_started = started_type
type_of (arrived e) = arrival_type
type_of (game_ended winner) = ended_type

abbrev pub type_eq : EventType → EventType → Bool
type_eq started_type started_type = true
type_eq arrival_type arrival_type = true
type_eq ended_type ended_type = true
type_eq _ _ = false

-- A handler changes the state W of whatever it refers to. A type without subscribers has no handlers.
pub record EventBus (W : Type 0) : Type 0 where
  pub subscribers : EventType → List (GameEvent → W → W)

module _ {W : Type 0} where
  abbrev pub new_bus : EventBus W
  new_bus = record { subscribers = λ t. [] }

  unfoldable pub subscribe : EventType → (GameEvent → W → W) → EventBus W → EventBus W
  subscribe t handler bus = record {
    subscribers = λ u. if type_eq u t then bus.subscribers u ++ handler ∷ [] else bus.subscribers u;
  }

  -- The loop of `publish`.
  unfoldable pub deliver : List (GameEvent → W → W) → GameEvent → W → W
  deliver [] event w = w
  deliver (handler ∷ handlers) event w = deliver handlers event (handler event w)

  unfoldable pub publish_event : EventBus W → GameEvent → W → W
  unfolding deliver
  publish_event bus event w = deliver (bus.subscribers (type_of event)) event w

  unfoldable pub publish_all : EventBus W → List GameEvent → W → W
  unfolding publish_event
  publish_all bus [] w = w
  publish_all bus (event ∷ events) w = publish_all bus events (publish_event bus event w)

pub data Sound : Type 0 where
  move_sound capture_sound start_sound end_sound : Sound

abbrev pub arrival_sound : {A : Type 0} → Option A → Sound
arrival_sound none = move_sound
arrival_sound (some _) = capture_sound

-- The cast of the erased handler back to an arrival, which is all that the bus hands it.
abbrev on_arrived : {W : Type 0} → (ArrivalEvent → W → W) → GameEvent → W → W
on_arrived handler (arrived e) w = handler e w
on_arrived handler _ w = w

-- SoundBoard's constructor; `play` is the ISoundPlayer.
unfoldable pub sound_board : {W : Type 0} → (Sound → W → W) → EventBus W → EventBus W
unfolding subscribe
sound_board play bus =
    subscribe ended_type (λ e w. play end_sound w)
      (subscribe started_type (λ e w. play start_sound w)
        (subscribe arrival_type (on_arrived (λ e w. play (arrival_sound e.captured_piece) w)) bus))
