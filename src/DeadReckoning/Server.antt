-- ===== src/DeadReckoning/Server.antt =====
-- The loop of src/dr_server.c. What `accept` and the pools of the players give is an input of each
-- round.
pub mod Laws
pub mod Round
use sasd_protocols.Prelude.{
  ℕ, zero, suc, ◌*◌, List, [], ◌∷◌, ◌++◌, length, ℤ, pos, Option, none, some, ◌>>=◌, ltb,
  if◌then◌else◌,
}
use sasd_protocols.Balls.Types.{State, Event, max_players}
use sasd_protocols.Balls.Advance.{advance_state}
use sasd_protocols.Balls.Initial.{initial_state}
use sasd_protocols.Packets.Types.{Packet, Payload, handshake, state, event}

-- An element of `players` up to `player_count`, without its pool.
pub record Player : Type 0 where
  pub lie : ℤ
  pub socket : ℤ

pub record Server : Type 0 where
  pub stat : State
  pub players : List Player

-- The game in front of the loop; nobody is connected.
pub server_start : ℤ → Server
server_start stale = record { stat = initial_state stale (pos 0); players = [] }

-- What `send_packet` is called with.
abbrev pub Message : Type 0
Message = ℤ × Payload

-- The size of `evs`
abbrev pub max_events : ℕ
max_events = max_players * 10

-- A connection. A player behind the end of `players` is undefined.
unfoldable pub accept_player : Option ℤ → List Player → Option (List Message × List Player)
accept_player none players = some ([], players)
accept_player (some csocket) players =
    if ltb (length players) max_players
    then some (
      (csocket, handshake (pos (length players))) ∷ [],
      players ++ (record { lie = pos 0; socket = csocket } ∷ []),
    )
    else none

-- `evs[ev_count++] = packet.payload.event;`
pub put_event : List Event → Event → Option (List Event)
put_event evs ev = if ltb (length evs) max_events then some (evs ++ (ev ∷ [])) else none

pub collect_payload : Payload → Player × List Event → Option (Player × List Event)
collect_payload (event ev) (player, evs) =
    put_event evs ev >>= λ evs'. some (record player { lie = ev.summon_frame }, evs')
collect_payload _ s = some s

-- The packets of one player.
pub collect_packets : List Packet → Player × List Event → Option (Player × List Event)
collect_packets [] s = some s
collect_packets (packet ∷ packets) s =
    collect_payload packet.payload s >>= λ s'. collect_packets packets s'

-- Those of all players, given by player.
pub collect : List Player → List (List Packet) → List Event → Option (List Player × List Event)
collect [] received evs = some ([], evs)
collect (player ∷ players) [] evs = some (player ∷ players, evs)
collect (player ∷ players) (packets ∷ received) evs =
    collect_packets packets (player, evs) >>= λ (player', evs').
    collect players received evs' >>= λ (players', evs''). some (player' ∷ players', evs'')

-- The state is sent to each player with its last influential event, which stays in it.
pub send_states : List Player → State → List Message × State
send_states [] stat = ([], stat)
send_states (player ∷ players) stat =
    let lied = record stat { lie = player.lie } in
    let (messages, last) = send_states players lied in
    ((player.socket, state lied) ∷ messages, last)

-- One round: the messages that are sent, and the server.
pub server_round :
    ((Event → Event → ℤ) → List Event → List Event)
    → Option ℤ
    → List (List Packet)
    → Server
    → Option (List Message × Server)
server_round qsort connection received s =
    accept_player connection s.players >>= λ (greeting, players).
    collect players received [] >>= λ (players', evs).
    advance_state qsort s.stat evs >>= λ (stat, sorted).
    let (messages, last) = send_states players' stat in
    some (greeting ++ messages, record { stat = last; players = players' })
