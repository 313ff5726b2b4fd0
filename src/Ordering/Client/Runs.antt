-- ===== src/Ordering/Client/Runs.antt =====
-- The program of src/game_fasteventordering.c at concrete inputs.
use sasd_protocols.Prelude.{
  ℕ, zero, suc, ◌≤◌, ◌≡◌, refl, List, [], ◌∷◌, pos, ◌-ℤ◌, ◌+ℤ◌, some, Returns, true, false, arith,
}
use sasd_protocols.Prelude.Word.{signed, bits}
use sasd_protocols.Balls.Types.{Event, IsEvent}
use sasd_protocols.Balls.Initial.{initial_state}
use sasd_protocols.Balls.Runs.Insertion.{insertion_sort, insertion_sort-IsQsort}
use sasd_protocols.Packets.Types.{handshake}
use sasd_protocols.Vec.Slots.Laws.{element}
use sasd_protocols.Ordering.{
  Matrix, lags, compute_delays, try_from, difs, dif, max_loop, greater, min_of, min_loop, lesser,
  delay_table, delay,
}
use sasd_protocols.Ordering.Client.{delays_of, ordering, ordering_main, ended}
use sasd_protocols.Ordering.Client.Whole.{ordering_main-replay}
use sasd_protocols.Ordering.Client.OnTime.{ordering-round-final}
use sasd_protocols.Rollback.Cells.Laws.{events_at}
use sasd_protocols.Rollback.Keys.{key, right, quit}
use sasd_protocols.Rollback.Loop.{Game, own_event, entry, row_at, round}
use sasd_protocols.Rollback.Loop.OnTime.{IsOnTime}
use sasd_protocols.Rollback.Loop.Round.{IsRound, RoundDone}
use sasd_protocols.Rollback.Main.{Turn, played}
use sasd_protocols.Rollback.Replay.{replay}
use sasd_protocols.Rollback.Runs.{
  plenty, plenty-GrowsInPlace, connect_packet, first, game, game-IsRound, no_events,
  no_events-IsCells,
}

-- The window is closed in frame 3, so the last turn is not played.
abbrev turns : List Turn
turns =
    (key true right ∷ [], [])
    ∷ (key false right ∷ [], connect_packet ∷ [])
    ∷ (quit ∷ [], [])
    ∷ (key true right ∷ [], [])
    ∷ []

ordering_main-replay_example :
    (d : Matrix) × (own : ℕ) × (g : Game) × (sent : List (List Event)) × (compute_delays lags 2
      ≡ some d)
    × (entry (delays_of d) (pos 0) (pos 0) ≡ some (pos own))
    × (ordering_main plenty insertion_sort 2 400 (pos 7) turns (handshake (pos 0))
        ≡ some
            (ended (played (own_event (ordering (delays_of d) (pos 0) (pos own)) (pos 1)) sent g)))
    × (replay insertion_sort (initial_state (pos 7) (pos 0)) (events_at g.event_trace) 3
        ≡ some g.stat)
    × IsRound insertion_sort (initial_state (pos 7) (pos 0)) g 3
ordering_main-replay_example =
    ordering_main-replay plenty plenty-GrowsInPlace insertion_sort-IsQsort 2 400 (pos 7) (pos 0)
      turns (omega arith) (omega arith) (omega arith) (omega arith) (omega arith) (omega arith)

-- The delays of three clients.
abbrev delays : Matrix
delays =
    (pos 60 ∷ pos 60 ∷ pos 30 ∷ [])
    ∷ (pos 60 ∷ pos 60 ∷ pos 30 ∷ [])
    ∷ (pos 30 ∷ pos 30 ∷ pos 0 ∷ [])
    ∷ []

delays_found : compute_delays lags 3 ≡ some delays
unfolding compute_delays try_from difs dif max_loop greater min_of min_loop lesser delay_table delay
    ◌-ℤ◌ ◌+ℤ◌ signed bits
delays_found = refl

own_delay : entry (delays_of delays) (pos 0) (pos 0) ≡ some (pos 60)
unfolding entry row_at delays_of
own_delay = refl

none_waits : IsOnTime no_events
none_waits zero = tt
none_waits (suc zero) = tt
none_waits (suc (suc k)) = tt

ordering-round-final_example :
    Returns
      (λ r.
        RoundDone insertion_sort first
          (ordering (delays_of delays) (pos 0) (pos 60))
          60
          0
          (key true right ∷ [])
          (connect_packet ∷ [])
          (game no_events)
          r
        × IsOnTime r.1.event_buffer
        × ((j : ℕ) → j ≤ 0 → element r.1.state_trace j ≡ element (game no_events).state_trace j))
      (round plenty insertion_sort
        (ordering (delays_of delays) (pos 0) (pos 60))
        (key true right ∷ [])
        (connect_packet ∷ [])
        (game no_events))
unfolding ◌+ℤ◌
ordering-round-final_example =
    ordering-round-final plenty plenty-GrowsInPlace insertion_sort-IsQsort first 3 delays 0 60 0
      (key true right ∷ []) (connect_packet ∷ []) (game no_events) (omega arith) (omega arith)
      delays_found (omega arith) own_delay (omega arith)
      (
        record {
          made = omega arith;
          other = 1;
          in_game = omega arith;
          has_player = refl;
          in_time = omega arith;
        },
        tt,
      )
      none_waits (game-IsRound no_events (no_events-IsCells IsEvent))
