-- ===== src/Rollback/Loop.antt =====
-- The loop of `main` in src/game_timewarp.c and src/game_fasteventordering.c, one round for each
-- frame. What differs between the two programs is an argument.
pub mod Arrivals
pub mod Events
pub mod Lags
pub mod OnTime
pub mod Round
pub mod Start
pub mod Turns
pub mod Sorted
pub mod Synchronize
use sasd_protocols.Prelude.{
  ℕ, zero, suc, ◌+◌, List, [], ◌∷◌, get_elem?, Option, none, some, ◌>>=◌, ◌||◌, if◌then◌else◌, Bool,
  true, false, ℤ, pos, negsuc, ◌+ℤ◌, ◌-ℤ◌, eqb_ℤ, ltb_ℤ, pos_part,
}
use sasd_protocols.Prelude.Word.{bits, mod64}
use sasd_protocols.Buffer.Types.{Allocator}
use sasd_protocols.Balls.Types.{State, Event, n_buttons}
use sasd_protocols.Balls.Collide.{i32}
use sasd_protocols.Balls.Advance.{advance_state}
use sasd_protocols.Vec.Slots.{Slots, slots_get, slots_set, slots_create, assign}
use sasd_protocols.Packets.Types.{Packet, Payload, event}
use sasd_protocols.Ordering.{Matrix}
use sasd_protocols.Rollback.Cells.{
  EvVec, Cell, absent, block, dangling, index, open_at, push_opened, add_events,
}
use sasd_protocols.Rollback.Keys.{Input, key_events, still_running}

-- The variables of `main` that live from one frame to the next. A state that nothing was written
-- to is `none`.
pub record Game : Type 0 where
  pub running : Bool
  pub stat : State
  pub state_trace : Slots (Option State)
  pub event_trace : Slots Cell
  pub event_buffer : Slots Cell
  pub min_frame : ℤ
  pub frame : ℤ

-- An element of a table by two players, none of whom is out of range.
unfoldable pub row_at : {A : Type 0} → List A → ℤ → Option A
row_at xs (pos i) = get_elem? xs i
row_at xs (negsuc i) = none

unfoldable pub entry : Matrix → ℤ → ℤ → Option ℤ
entry table i j = row_at table i >>= λ row. row_at row j

-- What differs: the table of simulated lags, the frames by which an own event is put off, and the
-- frame at which an event of another client is executed.
pub record Protocol : Type 0 where
  pub lags : Matrix
  pub player : ℤ
  pub own_lag : ℤ
  pub executed : Event → Option ℤ

abbrev pub trace_size : ℕ
trace_size = 512

-- The event that a client makes at a frame, without its button.
pub own_event : Protocol → ℤ → Event
own_event p frame = record {
  frame = i32 (frame +ℤ p.own_lag);
  summon_frame = frame;
  player = p.player;
  button = pos n_buttons;
  pressed = pos 1;
}

-- The frame at which a remote event is taken out of the buffer.
pub due : ℤ → ℤ → ℤ → ℤ
due frame lag summon_frame =
    let q = i32 (summon_frame +ℤ lag) in if eqb_ℤ lag (pos 0) || ltb_ℤ q frame then frame else q

-- The events of a list that a player made.
pub of_player : ℤ → List Event → List Event
of_player player [] = []
of_player player (ev ∷ evs) =
    let rest = of_player player evs in if eqb_ℤ ev.player player then ev ∷ rest else rest

module _ (heap : Allocator) (p : Protocol) where
  -- A packet that was retrieved.
  pub receive_event : ℤ → Slots Cell → Event → Option (Slots Cell)
  receive_event frame event_buffer ev = p.executed ev >>= λ executed.
      entry p.lags p.player ev.player >>= λ lag.
      add_events heap event_buffer (index (due frame lag ev.summon_frame))
        (record ev { frame = executed } ∷ [])
      >>= λ (v, event_buffer'). some event_buffer'

  pub receive_payload : ℤ → Slots Cell → Payload → Option (Slots Cell)
  receive_payload frame event_buffer (event ev) = receive_event frame event_buffer ev
  receive_payload frame event_buffer _ = some event_buffer

  -- `while (recvpool_retrieve(&pool, &packet, 1) != -1)`, on the packets that it gives.
  pub receive_all : ℤ → Slots Cell → List Packet → Option (Slots Cell)
  receive_all frame event_buffer [] = some event_buffer
  receive_all frame event_buffer (packet ∷ packets) =
      receive_payload frame event_buffer packet.payload >>= λ event_buffer'.
      receive_all frame event_buffer' packets

  -- The events of the buffer are put into the trace; the earliest frame is noted.
  pub apply_all : List Event → Slots Cell × ℤ → Option (Slots Cell × ℤ)
  apply_all [] s = some s
  apply_all (ev ∷ evs) (event_trace, min_frame) =
      add_events heap event_trace (index ev.frame) (ev ∷ []) >>= λ (v, event_trace').
      apply_all evs (event_trace', (if ltb_ℤ ev.frame min_frame then ev.frame else min_frame))

-- The events of an element. To read a block that has moved is undefined.
pub events_in : Option Cell → Option (List Event)
events_in none = some []
events_in (some absent) = some []
events_in (some (block v)) = some v.evs
events_in (some dangling) = none

-- The block, after `advance_state` has put its events in order.
pub left_sorted : Slots Cell → ℕ → Option Cell → List Event → Slots Cell
left_sorted event_trace i (some (block v)) evs =
    assign event_trace i (block (record v { evs = evs }))
left_sorted event_trace i _ evs = event_trace

-- What `vec_get(state_trace, i - 1, &stat)` leaves in `stat`. A state that was never written is
-- undefined.
pub state_before : State → Option (Option State) → Option State
state_before stat none = some stat
state_before stat (some none) = none
state_before stat (some (some s)) = some s

module _ (heap : Allocator) (qsort : (Event → Event → ℤ) → List Event → List Event) where
  -- One round of the loop "Synchronize", at frame `i`.
  pub synchronize_one : ℤ → Game → Option Game
  synchronize_one i g =
      state_before g.stat (slots_get g.state_trace (index (i32 (i -ℤ pos 1)))) >>= λ before.
      events_in (slots_get g.event_trace (index i)) >>= λ evs.
      advance_state qsort before evs >>= λ (stat, sorted).
      slots_set heap g.state_trace (index i) (some stat) >>= λ state_trace. some (record g {
        stat = stat;
        state_trace = state_trace;
        event_trace =
            left_sorted g.event_trace (index i) (slots_get g.event_trace (index i)) sorted;
      })

  pub synchronize : ℕ → ℤ → Game → Option Game
  synchronize zero i g = some g
  synchronize (suc rounds) i g =
      synchronize_one i g >>= λ g'. synchronize rounds (i32 (i +ℤ pos 1)) g'

-- The rounds of `for (int i = min_frame; i <= frame; i++)`.
pub rounds_from : ℤ → ℤ → ℕ
rounds_from min_frame frame = pos_part (frame +ℤ pos 1 -ℤ min_frame)

module _ (heap : Allocator) (qsort : (Event → Event → ℤ) → List Event → List Event)
    (p : Protocol) where
  -- Up to "Receive events": the own events of the frame, and those that are sent.
  pub own_turn : List Input → Game → Option (List Event × Game)
  own_turn inputs g = slots_set heap g.state_trace (index g.frame) (some g.stat) >>= λ state_trace.
      add_events heap g.event_trace (index (i32 (g.frame +ℤ p.own_lag)))
        (key_events (own_event p g.frame) inputs)
      >>= λ (v, event_trace). some (
        of_player p.player v.evs,
        record g {
          running = still_running g.running inputs;
          state_trace = state_trace;
          event_trace = event_trace;
        },
      )

  -- Up to "Synchronize": what the others sent.
  pub others_turn : List Packet → Game → Option Game
  others_turn packets g = receive_all heap p g.frame g.event_buffer packets >>= λ event_buffer.
      events_in (slots_get event_buffer (index g.frame)) >>= λ evs.
      apply_all heap p evs (g.event_trace, g.min_frame) >>= λ (event_trace, min_frame).
      some
        (record g { event_trace = event_trace; event_buffer = event_buffer; min_frame = min_frame })

  -- The end of a round.
  pub next_round : Game → Game
  next_round g = let frame = i32 (g.frame +ℤ pos 1) in record g { frame = frame; min_frame = frame }

  -- One round of the loop: the events that are sent, and the game.
  pub round : List Input → List Packet → Game → Option (List Event × Game)
  round inputs packets g = own_turn inputs g >>= λ (sent, g1). others_turn packets g1 >>= λ g2.
      synchronize heap qsort (rounds_from g2.min_frame g2.frame) g2.min_frame g2 >>= λ g3.
      some (sent, next_round g3)

  -- The code in front of the loop, with the player known: the connect event, which is sent, and
  -- the game at frame 1. `sizeof(state)` is an argument.
  pub start : ℕ → State → Option (Event × Game)
  start state_size stat = slots_create heap trace_size state_size none >>= λ states.
      slots_create heap trace_size 8 absent >>= λ event_trace.
      slots_create heap trace_size 8 absent >>= λ event_buffer.
      slots_set heap states 0 (some stat) >>= λ state_trace.
      let connect = own_event p (pos 1) in
      open_at heap event_trace (index connect.frame) none
      >>= push_opened heap (index connect.frame) (connect ∷ [])
      >>= λ (v, event_trace'). some (
        connect,
        record {
          running = true;
          stat = stat;
          state_trace = state_trace;
          event_trace = event_trace';
          event_buffer = event_buffer;
          min_frame = pos 1;
          frame = pos 1;
        },
      )
