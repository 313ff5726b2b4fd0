-- ===== src/Ordering/Client/Whole.antt =====
-- The program of src/game_fasteventordering.c as a whole.
use sasd_protocols.Prelude.{
  ℕ, ◌^◌, ◌≤◌, ◌<◌, ◌≡◌, refl, ap, ◌∙◌, List, length, ℤ, pos, some, ◌>>=◌, All,
}
use sasd_protocols.Ordering.{Matrix, lags, compute_delays}
use sasd_protocols.Rollback.Loop.Lags.{IsPlayer, entry-IsLags}
use sasd_protocols.Buffer.Types.{Allocator}
use sasd_protocols.Balls.Types.{Event}
use sasd_protocols.Balls.Sorting.{IsQsort}
use sasd_protocols.Balls.Initial.{initial_state}
use sasd_protocols.Balls.Initial.Laws.{initial_state-IsWellFormed}
use sasd_protocols.Packets.Types.{handshake}
use sasd_protocols.Rollback.Cells.Laws.{GrowsInPlace, events_at}
use sasd_protocols.Rollback.Replay.{replay}
use sasd_protocols.Rollback.Loop.{Game, entry, own_event}
use sasd_protocols.Ordering.Client.Laws.{delays-IsLags, IsMadePacket, all_made-IsReceived}
use sasd_protocols.Rollback.Loop.Turns.{IsProtocol}
use sasd_protocols.Rollback.Loop.Round.{IsRound}
use sasd_protocols.Rollback.Main.{Turn, played}
use sasd_protocols.Rollback.Main.Laws.{frames_played, main-IsRound, shown_state}
use sasd_protocols.Ordering.Client.{
  delays_of, ordering, protocol_of, ended, with_delays, ordering_main,
}

-- Fast event ordering with one to eight clients, once a server has given a player's number: the
-- delays are found, and the program plays each frame up to the one in which the window is closed, or
-- all of fewer than 2^29 turns, with any keys and any valid events of other players, early or late.
-- An own event waits for the delay of the player itself, and the state that is shown in the end is
-- the one that a replay of all known events, over the frames that were played, gives. Memory does
-- not run out and blocks of events grow in place.
pub ordering_main-replay :
    (heap : Allocator)
    → GrowsInPlace heap
    → {qsort : (Event → Event → ℤ) → List Event → List Event} → IsQsort qsort
    → (n_clients state_size : ℕ) (stale player : ℤ) (turns : List Turn) → 0 < n_clients
    → n_clients ≤ 8
    → state_size ≤ 2 ^ 20
    → length turns < 2 ^ 29
    → IsPlayer player
    → All (λ turn. All IsMadePacket turn.1) turns
    → (d : Matrix) × (own : ℕ) × (g : Game) × (sent : List (List Event)) × (compute_delays lags
          n_clients
        ≡ some d)
      × (entry (delays_of d) player player ≡ some (pos own))
      × (ordering_main heap qsort n_clients state_size stale turns (handshake player)
          ≡ some
              (ended (played (own_event (ordering (delays_of d) player (pos own)) (pos 1)) sent g)))
      × (replay qsort (initial_state stale (pos 0)) (events_at g.event_trace) (frames_played turns)
          ≡ some g.stat)
      × IsRound qsort (initial_state stale (pos 0)) g (frames_played turns)
unfolding ordering_main with_delays protocol_of
ordering_main-replay heap grows {qsort} q n_clients state_size stale player turns some_client
      few_clients size few h made =
    let s0 = initial_state stale (pos 0) in
    let (d, found, valid) = delays-IsLags n_clients some_client few_clients in
    let (own, e, small) = entry-IsLags (delays_of d) player player valid h h in
    let p = ordering (delays_of d) player (pos own) in
    let is_protocol : IsProtocol p own = record {
      has_lag = refl;
      lag_small = small;
      player_low = h.0;
      player_high = h.1;
    } in
    let (g, out, e', r) =
      (main-IsRound heap grows q (protocol_of (delays_of d)) state_size s0 turns
          (initial_state-IsWellFormed stale (pos 0)).0 size few).1
        player p own (ap (λ o. o >>= λ own. some (ordering (delays_of d) player own)) e) is_protocol
        (all_made-IsReceived (delays_of d) valid player (pos own) h turns made) in
    (
      d,
      own,
      g,
      out,
      found,
      e,
      ap (with_delays heap qsort state_size stale turns (handshake player)) found
          ∙ ap (λ o. o >>= λ outcome. some (ended outcome)) e',
      shown_state qsort s0 g (frames_played turns) r,
      r,
    )
