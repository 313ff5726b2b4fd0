-- ===== src/TimeWarp/Laws.antt =====
-- The program of src/game_timewarp.c plays with the events of all players.
use sasd_protocols.Prelude.{
  ℕ, ◌^◌, ◌≤◌, ◌<◌, ◌≡◌, refl, List, [], ◌∷◌, length, ℤ, pos, ◌≤ℤ◌, some, All, arith,
}
use sasd_protocols.Buffer.Types.{Allocator}
use sasd_protocols.Balls.Types.{Event, IsEvent}
use sasd_protocols.Balls.Sorting.{IsQsort}
use sasd_protocols.Balls.Initial.{initial_state}
use sasd_protocols.Balls.Initial.Laws.{initial_state-IsWellFormed}
use sasd_protocols.Packets.Types.{
  Packet, Payload, test_packet_1, test_packet_2, handshake, plain_text, disconnected, connected,
  ball, state, event, unknown,
}
use sasd_protocols.Rollback.Cells.Laws.{GrowsInPlace, events_at}
use sasd_protocols.Rollback.Replay.{replay}
use sasd_protocols.Rollback.Loop.{Game, own_event}
use sasd_protocols.Rollback.Loop.Arrivals.{IsRemote, IsReceived}
use sasd_protocols.Rollback.Loop.Lags.{IsPlayer, IsLags, below, entry-IsLags}
use sasd_protocols.Rollback.Loop.Turns.{IsProtocol}
use sasd_protocols.Rollback.Loop.Round.{IsRound}
use sasd_protocols.Rollback.Main.{Turn, played}
use sasd_protocols.Rollback.Main.Laws.{frames_played, main-IsRound, shown_state}
use sasd_protocols.TimeWarp.{lags, local_lag, time_warp, time_warp_main}

-- What a client sends: a valid event, executed from frame 1 on, made at a frame of the game.
pub record IsSent (ev : Event) : Type 0 where
  pub valid : IsEvent ev
  pub after_start : pos 1 ≤ℤ ev.frame
  pub summoned_low : pos 0 ≤ℤ ev.summon_frame
  pub summoned_high : ev.summon_frame ≤ℤ pos (2 ^ 29)

abbrev pub IsSentPacket : Packet → Type 0
IsSentPacket packet = of_payload packet.payload
  where
    of_payload : Payload → Type 0
    of_payload (event ev) = IsSent ev
    of_payload _ = Unit

lags-IsLags : IsLags lags
unfolding lags
lags-IsLags = omega arith

-- What a client sends can be received by every other one.
IsSent-IsRemote :
    (player : ℤ) (ev : Event) → IsPlayer player → IsSent ev → IsRemote (time_warp player) ev
IsSent-IsRemote player ev h s =
    let (lag, e, small) =
      entry-IsLags lags player ev.player lags-IsLags h (s.valid.player_low, s.valid.player_high) in
    let (n, e', few) = below ev.summon_frame (2 ^ 29) s.summoned_low s.summoned_high in
    record {
      at = ev.frame;
      executed = refl;
      lag = lag;
      has_lag = e;
      lag_small = small;
      summoned = n;
      has_summoned = e';
      summoned_small = few;
      timed = record { valid = s.valid; after_start = s.after_start };
    }

IsSentPacket-IsReceived :
    (player : ℤ) (packet : Packet)
    → IsPlayer player
    → IsSentPacket packet
    → IsReceived (time_warp player) packet
IsSentPacket-IsReceived player packet h s = of_payload packet.payload s
  where
    of_payload :
        (x : Payload)
        → IsSentPacket (record packet { payload = x })
        → IsReceived (time_warp player) (record packet { payload = x })
    of_payload (event ev) s = IsSent-IsRemote player ev h s
    of_payload (test_packet_1 a b) s = tt
    of_payload (test_packet_2 a b) s = tt
    of_payload (handshake a) s = tt
    of_payload (plain_text a) s = tt
    of_payload disconnected s = tt
    of_payload connected s = tt
    of_payload (ball a) s = tt
    of_payload (state a) s = tt
    of_payload (unknown a) s = tt

received :
    (player : ℤ)
    → IsPlayer player
    → (packets : List Packet) → All IsSentPacket packets
    → All (IsReceived (time_warp player)) packets
received player h [] s = tt
received player h (packet ∷ packets) (s, ss) =
    (IsSentPacket-IsReceived player packet h s, received player h packets ss)

all_received :
    (player : ℤ)
    → IsPlayer player
    → (turns : List Turn) → All (λ turn. All IsSentPacket turn.1) turns
    → All (λ turn. All (IsReceived (time_warp player)) turn.1) turns
all_received player h [] s = tt
all_received player h ((inputs, packets) ∷ turns) (s, ss) =
    (received player h packets s, all_received player h turns ss)

-- Time warp, once a server has given a player's number: the program plays each frame up to the one
-- in which the window is closed, or all of fewer than 2^29 turns, with any keys and any valid events
-- of other players, early or late, and the state that it shows in the end is the one that a replay
-- of all events that it knows, over the frames that were played, gives. Memory does not run out and
-- blocks of events grow in place.
pub time_warp_main-replay :
    (heap : Allocator)
    → GrowsInPlace heap
    → {qsort : (Event → Event → ℤ) → List Event → List Event} → IsQsort qsort
    → (state_size : ℕ) (stale player : ℤ) (turns : List Turn) → state_size ≤ 2 ^ 20
    → length turns < 2 ^ 29
    → IsPlayer player
    → All (λ turn. All IsSentPacket turn.1) turns
    → (g : Game) × (sent : List (List Event)) × (time_warp_main heap qsort state_size stale turns
          (handshake player)
        ≡ some (played (own_event (time_warp player) (pos 1)) sent g))
      × (replay qsort (initial_state stale (pos 0)) (events_at g.event_trace) (frames_played turns)
          ≡ some g.stat)
      × IsRound qsort (initial_state stale (pos 0)) g (frames_played turns)
unfolding time_warp_main
time_warp_main-replay heap grows {qsort} q state_size stale player turns size few h sent =
    let s0 = initial_state stale (pos 0) in
    let p : IsProtocol (time_warp player) local_lag = record {
      has_lag = refl;
      lag_small = omega arith;
      player_low = h.0;
      player_high = h.1;
    } in
    let (g, out, e, d) =
      (main-IsRound heap grows q (λ i. some (time_warp i)) state_size s0 turns
          (initial_state-IsWellFormed stale (pos 0)).0 size few).1
        player (time_warp player) local_lag refl p (all_received player h turns sent) in
    (g, out, e, shown_state qsort s0 g (frames_played turns) d, d)
