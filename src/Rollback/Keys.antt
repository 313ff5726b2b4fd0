-- ===== src/Rollback/Keys.antt =====
-- How the games of src/game_timewarp.c, src/game_fasteventordering.c, src/game_deadreckoning.c and
-- src/game.c turn what SDL reports into events.
use sasd_protocols.Prelude.{List, [], ◌∷◌, ◌++◌, ℤ, pos, Option, none, some, Bool, true, false}
use sasd_protocols.Balls.Types.{Event}

-- The keys that the game knows, and all others.
pub data Key : Type 0 where
  right up left down other : Key

-- What `SDL_PollEvent` reports: that the window is closed, that a key is pressed (`true`) or
-- released, or what the game does not look at.
pub data Input : Type 0 where
  quit : Input
  key : Bool → Key → Input
  ignored : Input

unfoldable pub button_of : Key → Option ℤ
button_of right = some (pos 0)
button_of up = some (pos 1)
button_of left = some (pos 2)
button_of down = some (pos 3)
button_of other = none

abbrev pub pressed_of : Bool → ℤ
pressed_of true = pos 1
pressed_of false = pos 0

-- The event of a key: its frames and player are those of `ev`.
unfoldable pub event_of : Event → Bool → Option ℤ → List Event
event_of ev pressed none = []
event_of ev pressed (some button) = record ev { button = button; pressed = pressed_of pressed } ∷ []

-- The events of what was reported, in order.
unfoldable pub key_events : Event → List Input → List Event
key_events ev [] = []
key_events ev (quit ∷ is) = key_events ev is
key_events ev (key pressed k ∷ is) = event_of ev pressed (button_of k) ++ key_events ev is
key_events ev (ignored ∷ is) = key_events ev is

-- Is the game still running afterwards?
unfoldable pub still_running : Bool → List Input → Bool
still_running running [] = running
still_running running (quit ∷ is) = still_running false is
still_running running (key pressed k ∷ is) = still_running running is
still_running running (ignored ∷ is) = still_running running is
