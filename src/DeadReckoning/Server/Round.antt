-- ===== src/DeadReckoning/Server/Round.antt =====
-- A round of the loop in src/dr_server.c: one frame of the game, of which every player is told.
use sasd_protocols.Prelude.{
  ◌≤◌, ◌<◌, ◌≡◌, refl, ap, List, [], ◌++◌, length, ℤ, Option, none, some, All, Returns, arith,
}
use sasd_protocols.Balls.Types.{State, Event, IsEvent, IsWellFormed}
use sasd_protocols.Balls.Sorting.{IsQsort}
use sasd_protocols.Balls.Advance.Alike.{next_state}
use sasd_protocols.Balls.Advance.Total.{IsNext, advance_state-Returns}
use sasd_protocols.Packets.Types.{Packet}
use sasd_protocols.DeadReckoning.Server.{
  Player, Server, Message, max_events, accept_player, send_states, server_round,
}
use sasd_protocols.DeadReckoning.Server.Laws.{
  informed, round_events, reports, collect_fits, collect_overflow, send_states_lem,
}

-- A round of the server, in which at most eighty valid events come, is one frame of the game with
-- these events, the players' in the order of their numbers. Everyone is sent the new state, with
-- the summon frame of the last event that came from them; the state is well-formed, and only that
-- frame in it is left from the reports.
pub server_round-Returns :
    {qsort : (Event → Event → ℤ) → List Event → List Event}
    → IsQsort qsort
    → (connection : Option ℤ) (received : List (List Packet)) (s : Server) (greeting : List Message)
      (players : List Player)
    → IsWellFormed s.stat
    → accept_player connection s.players ≡ some (greeting, players)
    → length (round_events players received) ≤ max_events
    → All IsEvent (round_events players received)
    → Returns
        (λ r.
          (stat : State) × (next_state qsort s.stat (round_events players received) ≡ some stat)
          × IsNext s.stat stat
          × (r.0 ≡ greeting ++ reports stat (informed players received))
          × (r.1.players ≡ informed players received)
          × ((lie : ℤ) × (r.1.stat ≡ record stat { lie = lie })))
        (server_round qsort connection received s)
unfolding server_round
server_round-Returns {qsort} q connection received s greeting players w accepted few valid =
    let evs = round_events players received in
    let (r, e, (n, _)) = advance_state-Returns s.stat evs q valid w in
    let (sent, left) = send_states_lem (informed players received) r.0 in
    rw (accepted, collect_fits players received [] (omega (arith, few)), e)
      (
        (
          greeting ++ (send_states (informed players received) r.0).0,
          record {
            stat = (send_states (informed players received) r.0).1;
            players = informed players received;
          },
        ),
        refl,
        (r.0, refl, n, ap (λ l. greeting ++ l) sent, refl, left),
      )

-- More than eighty events in one round are written behind the end of `evs`, whoever sends them.
pub server_round-overflow :
    (qsort : (Event → Event → ℤ) → List Event → List Event) (connection : Option ℤ)
    (received : List (List Packet)) (s : Server) (greeting : List Message) (players : List Player)
    → accept_player connection s.players ≡ some (greeting, players)
    → max_events < length (round_events players received)
    → server_round qsort connection received s ≡ none
unfolding server_round
server_round-overflow qsort connection received s greeting players accepted many =
    rw (accepted, collect_overflow players received [] (omega arith) (omega (arith, many))) refl
