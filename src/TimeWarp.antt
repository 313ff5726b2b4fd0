-- ===== src/TimeWarp.antt =====
-- src/game_timewarp.c: what it has of its own, beside the loop of Rollback. An event is executed at
-- the frame that its sender chose, however late it comes.
pub mod Laws
mod Runs
use sasd_protocols.Prelude.{ℕ, List, [], ◌∷◌, ℤ, pos, Option, some}
use sasd_protocols.Buffer.Types.{Allocator}
use sasd_protocols.Balls.Types.{Event}
use sasd_protocols.Balls.Initial.{initial_state}
use sasd_protocols.Packets.Types.{Payload}
use sasd_protocols.Ordering.{Matrix}
use sasd_protocols.Rollback.Loop.{Protocol}
use sasd_protocols.Rollback.Main.{Turn, Outcome, main}

-- The table at the beginning of the file.
unfoldable pub lags : Matrix
lags =
    (pos 0 ∷ pos 0 ∷ pos 30 ∷ pos 0 ∷ pos 0 ∷ pos 0 ∷ pos 0 ∷ pos 0 ∷ [])
    ∷ (pos 0 ∷ pos 0 ∷ pos 30 ∷ pos 0 ∷ pos 0 ∷ pos 0 ∷ pos 0 ∷ pos 0 ∷ [])
    ∷ (pos 30 ∷ pos 0 ∷ pos 30 ∷ pos 0 ∷ pos 0 ∷ pos 0 ∷ pos 0 ∷ pos 0 ∷ [])
    ∷ (pos 0 ∷ pos 0 ∷ pos 0 ∷ pos 0 ∷ pos 0 ∷ pos 0 ∷ pos 0 ∷ pos 0 ∷ [])
    ∷ (pos 0 ∷ pos 0 ∷ pos 0 ∷ pos 0 ∷ pos 0 ∷ pos 0 ∷ pos 0 ∷ pos 0 ∷ [])
    ∷ (pos 0 ∷ pos 0 ∷ pos 0 ∷ pos 0 ∷ pos 0 ∷ pos 0 ∷ pos 0 ∷ pos 0 ∷ [])
    ∷ (pos 0 ∷ pos 0 ∷ pos 0 ∷ pos 0 ∷ pos 0 ∷ pos 0 ∷ pos 0 ∷ pos 0 ∷ [])
    ∷ (pos 0 ∷ pos 0 ∷ pos 0 ∷ pos 0 ∷ pos 0 ∷ pos 0 ∷ pos 0 ∷ pos 0 ∷ [])
    ∷ []

abbrev pub local_lag : ℕ
local_lag = 8

-- An event that is received keeps its frame.
abbrev pub time_warp : ℤ → Protocol
time_warp player = record {
  lags = lags;
  player = player;
  own_lag = pos local_lag;
  executed = λ ev. some ev.frame;
}

-- The program, on what `_lie` of the first state holds, the turns and the first packet.
pub time_warp_main :
    Allocator
    → ((Event → Event → ℤ) → List Event → List Event)
    → ℕ
    → ℤ
    → List Turn
    → Payload
    → Option Outcome
time_warp_main heap qsort state_size stale turns first =
    main heap qsort state_size (initial_state stale (pos 0)) turns
      (λ player. some (time_warp player)) first
