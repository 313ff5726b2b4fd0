-- ===== src/TimeWarp/Runs.antt =====
-- The program of src/game_timewarp.c at concrete inputs.
use sasd_protocols.Prelude.{◌≡◌, List, [], ◌∷◌, pos, some, true, false, arith}
use sasd_protocols.Balls.Types.{Event}
use sasd_protocols.Balls.Initial.{initial_state}
use sasd_protocols.Balls.Runs.Insertion.{insertion_sort, insertion_sort-IsQsort}
use sasd_protocols.Packets.Types.{handshake}
use sasd_protocols.Rollback.Cells.Laws.{events_at}
use sasd_protocols.Rollback.Keys.{key, right, quit}
use sasd_protocols.Rollback.Loop.{Game, own_event}
use sasd_protocols.Rollback.Loop.Round.{IsRound}
use sasd_protocols.Rollback.Main.{Turn, played}
use sasd_protocols.Rollback.Replay.{replay}
use sasd_protocols.Rollback.Runs.{plenty, plenty-GrowsInPlace, connect_packet}
use sasd_protocols.TimeWarp.{time_warp, time_warp_main}
use sasd_protocols.TimeWarp.Laws.{time_warp_main-replay}

-- The event of frame 1 comes in frame 2. The window is closed in frame 3, so the last turn is not
-- played.
abbrev turns : List Turn
turns =
    (key true right ∷ [], [])
    ∷ (key false right ∷ [], connect_packet ∷ [])
    ∷ (quit ∷ [], [])
    ∷ (key true right ∷ [], [])
    ∷ []

time_warp_main-replay_example :
    (g : Game) × (sent : List (List Event)) × (time_warp_main plenty insertion_sort 400
        (pos 7)
        turns
        (handshake (pos 0))
      ≡ some (played (own_event (time_warp (pos 0)) (pos 1)) sent g))
    × (replay insertion_sort (initial_state (pos 7) (pos 0)) (events_at g.event_trace) 3
        ≡ some g.stat)
    × IsRound insertion_sort (initial_state (pos 7) (pos 0)) g 3
time_warp_main-replay_example =
    time_warp_main-replay plenty plenty-GrowsInPlace insertion_sort-IsQsort 400 (pos 7) (pos 0)
      turns (omega arith) (omega arith) (omega arith) (omega arith)
