-- ===== src/DeadReckoning/Client.antt =====
-- `main` of src/game_deadreckoning.c: what is sent, and the estimate of the state that is shown.
pub mod Estimate
pub mod Laws
pub mod Round
pub mod Whole
use sasd_protocols.Prelude.{
  ℕ, zero, suc, ◌+◌, ◌*◌, ◌/◌, List, [], ◌∷◌, ◌++◌, length, get_elem?, ℤ, pos, negsuc, ◌+ℤ◌, ◌-ℤ◌,
  leb_ℤ, pos_part, Option, none, some, ◌>>=◌, ◌==◌, if◌then◌else◌, Bool, true,
}
use sasd_protocols.Buffer.Types.{Allocator, Realloc, null, same, moved}
use sasd_protocols.Balls.Types.{State, Event, n_buttons}
use sasd_protocols.Balls.Collide.{i32}
use sasd_protocols.Balls.Advance.{advance_state}
use sasd_protocols.Balls.Initial.{initial_state}
use sasd_protocols.Vec.Slots.{Slots, slots_get, slots_create}
use sasd_protocols.Packets.Types.{Packet, Payload, state}
use sasd_protocols.Rollback.Cells.{Cell, absent, index, open_at, push_opened, add_events}
use sasd_protocols.Rollback.Main.{Turn, client_id}
use sasd_protocols.Rollback.Keys.{Input, key_events, still_running}
use sasd_protocols.Rollback.Loop.{trace_size, row_at, events_in, left_sorted}

-- The two arrays at the beginning of the file.
unfoldable pub input_lags : List ℤ
input_lags = pos 0 ∷ pos 20 ∷ pos 0 ∷ pos 0 ∷ pos 0 ∷ pos 0 ∷ pos 0 ∷ pos 0 ∷ []

unfoldable pub local_lags : List ℤ
local_lags = pos 10 ∷ pos 10 ∷ pos 0 ∷ pos 0 ∷ pos 0 ∷ pos 0 ∷ pos 0 ∷ pos 0 ∷ []

-- `st_vec_t`: `stats` are the states that were pushed. Only one pointer leads to the block.
pub record StVec : Type 0 where
  pub count : ℕ
  pub stats : List State

module _ (heap : Allocator) (state_size : ℕ) where
  abbrev st_block_size : ℕ → ℕ
  st_block_size count = 8 + count * state_size

  pub st_vec_create : Option StVec
  st_vec_create =
      if heap.malloc (st_block_size 8) then some (record { count = 8; stats = [] }) else none

  pub st_vec_grown : StVec → Realloc → Option StVec
  st_vec_grown v null = none
  st_vec_grown v same = some (record v { count = v.count + v.count / 2 })
  st_vec_grown v moved = some (record v { count = v.count + v.count / 2 })

  pub st_vec_push : StVec → State → Option StVec
  st_vec_push v st =
      (if length v.stats == v.count
        then st_vec_grown v (heap.realloc (st_block_size (v.count + v.count / 2)))
        else some v)
      >>= λ v'. some (record v' { stats = v'.stats ++ (st ∷ []) })

  pub receive_state : StVec → Payload → Option StVec
  receive_state v (state st) = st_vec_push v st
  receive_state v _ = some v

  -- `while (recvpool_retrieve(&pool, &packet, 0) != -1)`, on the packets that it gives.
  pub receive_states : List Packet → StVec → Option StVec
  receive_states [] v = some v
  receive_states (packet ∷ packets) v =
      receive_state v packet.payload >>= λ v'. receive_states packets v'

-- The variables of `main` that live from one frame to the next, and the player.
pub record Estimator : Type 0 where
  pub running : Bool
  pub player : ℤ
  pub stat : State
  pub state_memory : StVec
  pub state_memory_access : ℕ
  pub event_trace : Slots Cell
  pub frame : ℤ

-- An own event, without its button. The lag is `local_lags[player]`.
pub local_event : ℤ → ℤ → ℤ → Event
local_event player frame lag = record {
  frame = i32 (frame +ℤ lag);
  summon_frame = frame;
  player = player;
  button = pos n_buttons;
  pressed = pos 1;
}

-- The next of the states that came replaces the estimate, when its simulated lag is over.
pub replaced : State → ℕ → ℤ → ℤ → Option State → State × ℕ
replaced stat access frame lag none = (stat, access)
replaced stat access frame lag (some looked) =
    if leb_ℤ (i32 (looked.frame +ℤ lag)) frame then (looked, access + 1) else (stat, access)

module _ (qsort : (Event → Event → ℤ) → List Event → List Event) where
  -- The frame of the own events of a round, if there is one.
  pub advance_at : ℤ → State × Slots Cell → Option (State × Slots Cell)
  advance_at (pos k) (stat, event_trace) = events_in (slots_get event_trace k) >>= λ evs.
      advance_state qsort stat evs >>= λ (stat', sorted).
      some (stat', left_sorted event_trace k (slots_get event_trace k) sorted)
  advance_at (negsuc k) (stat, event_trace) =
      advance_state qsort stat [] >>= λ (stat', sorted). some (stat', event_trace)

  -- The loop "Synchronize", so many rounds from `i` on.
  pub go_on : ℕ → ℤ → ℤ → State × Slots Cell → Option (State × Slots Cell)
  go_on zero i lag s = some s
  go_on (suc rounds) i lag s =
      advance_at (i32 (i -ℤ lag)) s >>= λ s'. go_on rounds (i32 (i +ℤ pos 1)) lag s'

module _ (heap : Allocator) (state_size : ℕ)
    (qsort : (Event → Event → ℤ) → List Event → List Event) where
  -- The own events of a frame: those that are sent.
  pub local_turn : ℤ → List Input → Estimator → Option (List Event × Estimator)
  local_turn lag inputs g =
      add_events heap g.event_trace (index g.frame)
        (key_events (local_event g.player g.frame lag) inputs)
      >>= λ (v, event_trace).
          some (
            v.evs,
            record g { running = still_running g.running inputs; event_trace = event_trace },
          )

  -- "Receive states", and the state that is looked up. The lag is `input_lags[player]`.
  pub server_turn : ℤ → List Packet → Estimator → Option Estimator
  server_turn lag packets g = receive_states heap state_size packets g.state_memory >>= λ memory.
      let (stat, access) =
        replaced g.stat g.state_memory_access g.frame lag
          (get_elem? memory.stats g.state_memory_access) in
      some (record g { stat = stat; state_memory = memory; state_memory_access = access })

  -- `for (int i = stat.frame; i < frame; i++)`, and the end of the round.
  pub estimate_turn : ℤ → Estimator → Option Estimator
  estimate_turn lag g =
      go_on qsort (pos_part (g.frame -ℤ g.stat.frame)) g.stat.frame lag (g.stat, g.event_trace)
      >>= λ (stat, event_trace).
          some (record g { stat = stat; event_trace = event_trace; frame = i32 (g.frame +ℤ pos 1) })

  -- One round: the events that are sent, and the client.
  pub client_round : List Input → List Packet → Estimator → Option (List Event × Estimator)
  client_round inputs packets g = row_at local_lags g.player >>= λ local_lag.
      row_at input_lags g.player >>= λ input_lag. local_turn local_lag inputs g >>= λ (sent, g1).
      server_turn input_lag packets g1 >>= λ g2.
      estimate_turn local_lag g2 >>= λ g3. some (sent, g3)

  -- The code in front of the loop, with the player known: the connect event, which is sent, and the
  -- client at frame 1.
  pub client_start : State → ℤ → Option (Event × Estimator)
  client_start stat player = st_vec_create heap state_size >>= λ memory.
      slots_create heap trace_size 8 absent >>= λ event_trace. row_at local_lags player >>= λ lag.
      let connect = local_event player (pos 1) lag in
      open_at heap event_trace 1 none >>= push_opened heap 1 (connect ∷ []) >>= λ (v, event_trace').
      some (
        connect,
        record {
          running = true;
          player = player;
          stat = stat;
          state_memory = memory;
          state_memory_access = 0;
          event_trace = event_trace';
          frame = pos 1;
        },
      )

  -- `while (game_state.running)`, for as many rounds as there are turns at most.
  pub client_rounds : List Turn → Estimator → Option Estimator
  client_rounds [] g = some g
  client_rounds ((inputs, packets) ∷ turns) g =
      let body = client_round inputs packets g >>= λ (sent, g'). client_rounds turns g' in
      if g.running then body else some g

  -- The program, on what `_lie` of the first state holds, the turns and the first packet; the inner
  -- `none` is "Protocol error. Aborting."
  pub client_joined : ℤ → List Turn → Option ℤ → Option (Option Estimator)
  client_joined stale turns none = some none
  client_joined stale turns (some player) =
      client_start (initial_state stale (pos 0)) player >>= λ (connect, g).
      client_rounds turns g >>= λ g'. some (some g')

  pub client_main : ℤ → List Turn → Payload → Option (Option Estimator)
  client_main stale turns first = client_joined stale turns (client_id first)
