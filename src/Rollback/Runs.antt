-- ===== src/Rollback/Runs.antt =====
-- Concrete games, and the theorems about the loop of src/game_timewarp.c and
-- src/game_fasteventordering.c at them.
use mathlib.Core.List.Perm
use sasd_protocols.Prelude.{
  ℕ, zero, suc, ◌≤◌, ◌≡◌, refl, List, [], ◌∷◌, ◌++◌, pos, none, some, All, Returns, true, arith,
}
use sasd_protocols.Buffer.Types.{Allocator, Realloc}
use sasd_protocols.Balls.Types.{State, Event, IsEvent, IsWellFormed, n_buttons}
use sasd_protocols.Balls.Initial.{initial_state}
use sasd_protocols.Balls.Initial.Laws.{initial_state-IsWellFormed}
use sasd_protocols.Balls.Advance.Same.{SameEvents, reordered, repeated, through}
use sasd_protocols.Balls.Runs.Insertion.{insertion_sort, insertion_sort-IsQsort}
use sasd_protocols.Packets.Types.{Packet, event}
use sasd_protocols.Vec.Slots.{Slots}
use sasd_protocols.Vec.Slots.Laws.{element}
use sasd_protocols.Rollback.Cells.{Cell, absent, block, add_events}
use sasd_protocols.Rollback.Cells.Laws.{
  GrowsInPlace, IsCells, IsSound, Added, events_at, add_events-Added,
}
use sasd_protocols.Rollback.Keys.{key, right}
use sasd_protocols.Rollback.Loop.{Game, Protocol, entry, row_at, round}
use sasd_protocols.Rollback.Replay.{replay}
use sasd_protocols.Rollback.Loop.Arrivals.{IsReceived}
use sasd_protocols.Rollback.Loop.Events.{IsTimed}
use sasd_protocols.Rollback.Loop.Round.{IsRound, RoundDone, round-IsRound}
use sasd_protocols.Rollback.Main.Laws.{SameEvents-same_state}

abbrev pub plenty : Allocator
plenty = record { malloc = λ n. true; realloc = λ n. Realloc.same }

pub plenty-GrowsInPlace : GrowsInPlace plenty
plenty-GrowsInPlace = record { grants = λ n. refl; in_place = λ n. refl }

abbrev pub first : State
first = initial_state (pos 7) (pos 0)

-- Two cells that hold no block.
abbrev pub no_events : Slots Cell
no_events = record { elem_size = 8; blank = absent; elems = absent ∷ absent ∷ [] }

pub no_events-IsCells : (P : Event → Type 0) → IsCells P no_events
no_events-IsCells P = record {
  slots = record { two = omega arith; short = omega arith; elem_small = omega arith };
  blank_absent = refl;
  sound = sound;
}
  where
    sound : (i : ℕ) → IsSound P (element no_events i)
    sound zero = tt
    sound (suc zero) = tt
    sound (suc (suc i)) = tt

-- A game in front of its first frame.
abbrev pub game : Slots Cell → Game
game event_trace = record {
  running = true;
  stat = first;
  state_trace = record { elem_size = 400; blank = none; elems = some first ∷ none ∷ [] };
  event_trace = event_trace;
  event_buffer = no_events;
  min_frame = pos 1;
  frame = pos 1;
}

pub game-IsRound : (t : Slots Cell) → IsCells IsEvent t → IsRound insertion_sort first (game t) 0
game-IsRound t c = record {
  frame = refl;
  min_frame = refl;
  game = record {
    states = record {
      slots = record { two = omega arith; short = omega arith; elem_small = omega arith };
      blank_none = refl;
    };
    cells = c;
  };
  buffer = no_events-IsCells IsTimed;
  past = past;
  shown = refl;
}
  where
    past :
        (j : ℕ)
        → j ≤ 0
        → (s : State) × (element (game t).state_trace j ≡ some s)
          × (replay insertion_sort first (events_at t) j ≡ some s)
          × IsWellFormed s
    past zero le = (first, refl, refl, (initial_state-IsWellFormed (pos 7) (pos 0)).0)
    past (suc j) le = absurd (omega arith)

-- Player 1 connects, in frame 1.
abbrev pub connect : Event
connect = record {
  frame = pos 1;
  summon_frame = pos 1;
  player = pos 1;
  button = pos n_buttons;
  pressed = pos 1;
}

abbrev pub connect_packet : Packet
connect_packet = record { size = pos 19; sender_id = pos 1; payload = event connect }

abbrev two_players : Protocol
two_players = record {
  lags = (pos 0 ∷ pos 30 ∷ []) ∷ (pos 30 ∷ pos 0 ∷ []) ∷ [];
  player = pos 0;
  own_lag = pos 8;
  executed = λ ev. some ev.frame;
}

connect-IsEvent : IsEvent connect
connect-IsEvent = omega arith

connect_packet-IsReceived : IsReceived two_players connect_packet
unfolding entry row_at
connect_packet-IsReceived = record {
  at = pos 1;
  executed = refl;
  lag = 30;
  has_lag = refl;
  lag_small = omega arith;
  summoned = 1;
  has_summoned = refl;
  summoned_small = omega arith;
  timed = record { valid = connect-IsEvent; after_start = omega arith };
}

round-IsRound_example :
    Returns
      (RoundDone insertion_sort first two_players 8 0
        (key true right ∷ [])
        (connect_packet ∷ [])
        (game no_events))
      (round plenty insertion_sort two_players
        (key true right ∷ [])
        (connect_packet ∷ [])
        (game no_events))
round-IsRound_example =
    round-IsRound plenty plenty-GrowsInPlace insertion_sort-IsQsort first two_players 8
      (record {
        has_lag = refl;
        lag_small = omega arith;
        player_low = omega arith;
        player_high = omega arith;
      })
      0 (omega arith) (key true right ∷ []) (connect_packet ∷ []) (game no_events)
      (connect_packet-IsReceived, tt) (game-IsRound no_events (no_events-IsCells IsEvent))

-- A trace that holds events in frame 0.
abbrev trace_of : List Event → Slots Cell
trace_of evs = record no_events { elems = block (record { count = 8; evs = evs }) ∷ absent ∷ [] }

trace_of-IsCells : (evs : List Event) → All IsEvent evs → IsCells IsEvent (trace_of evs)
trace_of-IsCells evs h = record {
  slots = record { two = omega arith; short = omega arith; elem_small = omega arith };
  blank_absent = refl;
  sound = sound;
}
  where
    sound : (i : ℕ) → IsSound IsEvent (element (trace_of evs) i)
    sound zero = h
    sound (suc zero) = tt
    sound (suc (suc i)) = tt

abbrev up : Event
up = record connect { button = pos 1 }

-- The first client has the connect event of the other one twice.
other_order :
    (k : ℕ)
    → k ≤ 0
    → SameEvents
        (events_at (trace_of (connect ∷ connect ∷ up ∷ [])) k)
        (events_at (trace_of (up ∷ connect ∷ [])) k)
other_order zero le = through (repeated connect (up ∷ [])) (reordered (Perm.swap up connect []))
other_order (suc k) le = absurd (omega arith)

SameEvents-same_state_example :
    (game (trace_of (connect ∷ connect ∷ up ∷ []))).stat
    ≡ (game (trace_of (up ∷ connect ∷ []))).stat
SameEvents-same_state_example =
    SameEvents-same_state first (game (trace_of (connect ∷ connect ∷ up ∷ [])))
      (game (trace_of (up ∷ connect ∷ []))) 0 insertion_sort-IsQsort insertion_sort-IsQsort
      (game-IsRound (trace_of (connect ∷ connect ∷ up ∷ []))
        (trace_of-IsCells (connect ∷ connect ∷ up ∷ []) (omega arith)))
      (game-IsRound (trace_of (up ∷ connect ∷ []))
        (trace_of-IsCells (up ∷ connect ∷ []) (omega arith)))
      other_order

add_events-Added_example :
    Returns
      (λ r.
        Added IsEvent no_events 5 (connect ∷ []) r.1
        × (r.0.evs ≡ events_at no_events 5 ++ (connect ∷ [])))
      (add_events plenty no_events 5 (connect ∷ []))
add_events-Added_example =
    add_events-Added plenty plenty-GrowsInPlace IsEvent no_events 5 (no_events-IsCells IsEvent)
      (omega arith) (connect ∷ []) (connect-IsEvent, tt)
