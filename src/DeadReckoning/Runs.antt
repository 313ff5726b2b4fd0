-- ===== src/DeadReckoning/Runs.antt =====
-- The programs of src/dr_server.c and src/game_deadreckoning.c at concrete inputs.
use sasd_protocols.Prelude.{
  ℕ, ◌≡◌, refl, List, [], ◌∷◌, ◌++◌, replicate, ℤ, pos, some, none, Returns, true, arith,
}
use sasd_protocols.Balls.Types.{State, IsEvent}
use sasd_protocols.Balls.Initial.{initial_state}
use sasd_protocols.Balls.Initial.Laws.{initial_state-IsWellFormed}
use sasd_protocols.Balls.Advance.Alike.{next_state}
use sasd_protocols.Balls.Advance.Total.{IsNext}
use sasd_protocols.Balls.Runs.Insertion.{insertion_sort, insertion_sort-IsQsort}
use sasd_protocols.Packets.Types.{Packet, handshake, state}
use sasd_protocols.Rollback.Keys.{key, right, quit}
use sasd_protocols.Rollback.Loop.{row_at}
use sasd_protocols.Rollback.Main.{Turn}
use sasd_protocols.Rollback.Runs.{
  plenty, plenty-GrowsInPlace, connect_packet, first, no_events, no_events-IsCells,
}
use sasd_protocols.DeadReckoning.Server.{Player, Server, Message, accept_player, server_round}
use sasd_protocols.DeadReckoning.Server.Laws.{informed, round_events, reports}
use sasd_protocols.DeadReckoning.Server.Round.{server_round-Returns, server_round-overflow}
use sasd_protocols.DeadReckoning.Client.{
  Estimator, local_lags, input_lags, client_round, client_main,
}
use sasd_protocols.DeadReckoning.Client.Laws.{IsEstimator, IsServed}
use sasd_protocols.DeadReckoning.Client.Round.{EstimateDone, client_round-EstimateDone}
use sasd_protocols.DeadReckoning.Client.Whole.{client_main-IsEstimator}

abbrev player : Player
player = record { lie = pos 0; socket = pos 4 }

abbrev server : ℕ → Server
server n = record { stat = first; players = replicate n player }

abbrev received : List (List Packet)
received = [] ∷ (connect_packet ∷ []) ∷ []

abbrev greeted : List Message
greeted = (pos 9, handshake (pos 1)) ∷ []

abbrev joined : List Player
joined = player ∷ record { lie = pos 0; socket = pos 9 } ∷ []

accepted : accept_player (some (pos 9)) (server 1).players ≡ some (greeted, joined)
unfolding accept_player
accepted = refl

server_round-Returns_example :
    Returns
      (λ r.
        (stat : State) × (next_state insertion_sort first (round_events joined received)
          ≡ some stat)
        × IsNext first stat
        × (r.0 ≡ greeted ++ reports stat (informed joined received))
        × (r.1.players ≡ informed joined received)
        × ((lie : ℤ) × (r.1.stat ≡ record stat { lie = lie })))
      (server_round insertion_sort (some (pos 9)) received (server 1))
server_round-Returns_example =
    server_round-Returns insertion_sort-IsQsort (some (pos 9)) received (server 1) greeted joined
      (initial_state-IsWellFormed (pos 7) (pos 0)).0 accepted (omega arith) (omega arith)

abbrev flood : List (List Packet)
flood = replicate 81 connect_packet ∷ []

nobody_new : accept_player none (server 1).players ≡ some ([], (server 1).players)
unfolding accept_player
nobody_new = refl

server_round-overflow_example : server_round insertion_sort none flood (server 1) ≡ none
server_round-overflow_example =
    server_round-overflow insertion_sort none flood (server 1) [] (server 1).players nobody_new
      (omega arith)

abbrev estimator : Estimator
estimator = record {
  running = true;
  player = pos 1;
  stat = first;
  state_memory = record { count = 8; stats = [] };
  state_memory_access = 0;
  event_trace = no_events;
  frame = pos 1;
}

abbrev state_packet : Packet
state_packet = record { size = pos 400; sender_id = pos 0; payload = state first }

first-IsServed : IsServed first
unfolding initial_state
first-IsServed = ((initial_state-IsWellFormed (pos 7) (pos 0)).0, omega arith, omega arith)

estimator-IsEstimator : IsEstimator estimator 0
unfolding initial_state
estimator-IsEstimator = record {
  frame = refl;
  player = omega arith;
  cells = no_events-IsCells IsEvent;
  memory = tt;
  well_formed = (initial_state-IsWellFormed (pos 7) (pos 0)).0;
  stat_low = omega arith;
  stat_high = omega arith;
}

client_round-EstimateDone_example :
    (local_lag input_lag : ℕ) × (row_at local_lags (pos 1) ≡ some (pos local_lag))
    × (row_at input_lags (pos 1) ≡ some (pos input_lag))
    × Returns
        (EstimateDone insertion_sort local_lag input_lag 0
          (key true right ∷ [])
          (state_packet ∷ [])
          estimator)
        (client_round plenty 400 insertion_sort (key true right ∷ []) (state_packet ∷ []) estimator)
client_round-EstimateDone_example =
    client_round-EstimateDone plenty plenty-GrowsInPlace 400 insertion_sort-IsQsort 0 (omega arith)
      (key true right ∷ []) (state_packet ∷ []) estimator (first-IsServed, tt) estimator-IsEstimator

-- The window is closed in frame 2, so the last turn is not played.
abbrev turns : List Turn
turns = (key true right ∷ [], []) ∷ (quit ∷ [], state_packet ∷ []) ∷ ([], []) ∷ []

client_main-IsEstimator_example :
    Returns
      (λ o. (g : Estimator) × (o ≡ some g) × IsEstimator g 2)
      (client_main plenty 400 insertion_sort (pos 7) turns (handshake (pos 1)))
client_main-IsEstimator_example =
    client_main-IsEstimator plenty plenty-GrowsInPlace 400 insertion_sort-IsQsort (pos 7) (pos 1)
      turns (omega arith) (tt, ((first-IsServed, tt), (tt, tt))) (omega arith)
