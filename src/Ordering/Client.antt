-- ===== src/Ordering/Client.antt =====
-- `main` of src/game_fasteventordering.c: what it has of its own, beside the loop of Rollback. The
-- frame at which an event is executed is set by the delays, not by its sender.
pub mod Laws
pub mod OnTime
pub mod Whole
mod Runs
use sasd_protocols.Prelude.{ℕ, List, [], ◌∷◌, ℤ, pos, ◌+ℤ◌, Option, none, some, ◌>>=◌}
use sasd_protocols.Buffer.Types.{Allocator}
use sasd_protocols.Balls.Types.{State, Event, max_players}
use sasd_protocols.Balls.Collide.{i32}
use sasd_protocols.Balls.Initial.{initial_state}
use sasd_protocols.Packets.Types.{Payload}
use sasd_protocols.Ordering.{Matrix, at, lags, fill_from, compute_delays}
use sasd_protocols.Rollback.Loop.{Protocol, entry}
use sasd_protocols.Rollback.Main.{Turn, Outcome, main}

-- The array `delays`: 0 where `compute_delays` has set nothing.
unfoldable pub delays_of : Matrix → Matrix
delays_of d = fill_from max_players 0 λ i. fill_from max_players 0 λ j. at d i j

-- The frame of an event that is received.
pub execution_frame : Matrix → ℤ → Event → Option ℤ
execution_frame delays player ev =
    entry delays player ev.player >>= λ delay. some (i32 (ev.summon_frame +ℤ delay))

abbrev pub ordering : Matrix → ℤ → ℤ → Protocol
ordering delays player own = record {
  lags = lags;
  player = player;
  own_lag = own;
  executed = execution_frame delays player;
}

-- With `delays[player][player]`.
pub protocol_of : Matrix → ℤ → Option Protocol
protocol_of delays player = entry delays player player >>= λ own. some (ordering delays player own)

-- "Algorithm failed!", or what becomes of the game.
pub data Ended : Type 0 where
  no_delays : Ended
  ended : Outcome → Ended

module _ (heap : Allocator) (qsort : (Event → Event → ℤ) → List Event → List Event) where
  pub with_delays : ℕ → ℤ → List Turn → Payload → Option Matrix → Option Ended
  with_delays state_size stale turns first none = some no_delays
  with_delays state_size stale turns first (some d) =
      main heap qsort state_size (initial_state stale (pos 0)) turns (protocol_of (delays_of d))
        first
      >>= λ outcome. some (ended outcome)

  -- The program, on the number of clients of its argument, which is at most MAX_PLAYERS.
  pub ordering_main : ℕ → ℕ → ℤ → List Turn → Payload → Option Ended
  ordering_main n_clients state_size stale turns first =
      with_delays state_size stale turns first (compute_delays lags n_clients)
