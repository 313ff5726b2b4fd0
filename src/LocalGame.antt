-- ===== src/LocalGame.antt =====
-- `main` of src/game.c: the game of one machine, with no network.
pub mod Laws
mod Runs
use sasd_protocols.Prelude.{
  ℕ, List, [], ◌∷◌, ◌++◌, length, ℤ, pos, Option, none, some, ◌>>=◌, ltb, if◌then◌else◌, Bool, true,
  false,
}
use sasd_protocols.Balls.Types.{State, Event, n_buttons}
use sasd_protocols.Balls.Advance.{advance_state}
use sasd_protocols.Balls.Initial.{initial_state}
use sasd_protocols.Rollback.Keys.{Input, quit, key, ignored, button_of, event_of}

-- The size of `event_buffer`
abbrev pub buffer_size : ℕ
buffer_size = 8

-- `events` are the elements of `event_buffer` up to `n_events`.
pub record LocalGame : Type 0 where
  pub running : Bool
  pub stat : State
  pub events : List Event

abbrev pub connect : ℤ → Event
connect player = record {
  frame = pos 0;
  summon_frame = pos 0;
  player = player;
  button = pos n_buttons;
  pressed = pos 1;
}

-- The event of a key, without what the key tells.
abbrev pub local_key : Event
local_key = record {
  frame = pos 9001;
  summon_frame = pos 9001;
  player = pos 0;
  button = pos n_buttons;
  pressed = pos 1;
}

-- The code in front of the loop, on what `_lie` of the first state holds: three players connect.
unfoldable pub local_start : ℤ → LocalGame
local_start stale = record {
  running = true;
  stat = initial_state stale (pos 0);
  events = connect (pos 0) ∷ connect (pos 1) ∷ connect (pos 2) ∷ [];
}

-- A key writes into the array, also one that the game does not know; that one is written over.
pub put_key : List Event → List Event → Option (List Event)
put_key events new = if ltb (length events) buffer_size then some (events ++ new) else none

pub poll : List Input → Bool × List Event → Option (Bool × List Event)
poll [] s = some s
poll (quit ∷ inputs) (running, events) = poll inputs (false, events)
poll (ignored ∷ inputs) s = poll inputs s
poll (key pressed k ∷ inputs) (running, events) =
    put_key events (event_of local_key pressed (button_of k)) >>= λ events'.
    poll inputs (running, events')

-- One round of the loop.
pub local_round :
    ((Event → Event → ℤ) → List Event → List Event) → List Input → LocalGame → Option LocalGame
local_round qsort inputs g = poll inputs (g.running, g.events) >>= λ (running, events).
    advance_state qsort g.stat events >>= λ (stat, sorted).
    some (record { running = running; stat = stat; events = [] })
