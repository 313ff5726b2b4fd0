-- ===== src/DeadReckoning/Server/Laws.antt =====
-- What a round of src/dr_server.c does: one frame of the game with all events that came.
use sasd_protocols.Prelude.{
  ◌+◌, ◌≤◌, ◌<◌, ◌≡◌, refl, sym, ap, ◌∙◌, List, [], ◌∷◌, ◌++◌, append-nil, append_assoc, length,
  length-append, ℤ, none, some, ◌>>=◌, ltb, lt→ltb, arith, Bool-cases, inl, inr,
}
use sasd_protocols.Balls.Types.{State, Event}
use sasd_protocols.Packets.Types.{
  Packet, Payload, test_packet_1, test_packet_2, handshake, plain_text, disconnected, connected,
  ball, state, event, unknown,
}
use sasd_protocols.DeadReckoning.Server.{
  Player, Message, max_events, put_event, collect_payload, collect_packets, collect, send_states,
}

-- The events among packets, in order, and the summon frame of the last one.
abbrev pub payload_events : Payload → List Event
payload_events (event ev) = ev ∷ []
payload_events _ = []

abbrev pub events_of : List Packet → List Event
events_of [] = []
events_of (packet ∷ packets) = payload_events packet.payload ++ events_of packets

abbrev pub last_summoned : ℤ → List Event → ℤ
last_summoned lie [] = lie
last_summoned lie (ev ∷ evs) = last_summoned ev.summon_frame evs

-- The players after a round, and the events of the round, by player.
abbrev pub informed : List Player → List (List Packet) → List Player
informed [] received = []
informed (player ∷ players) [] = player ∷ players
informed (player ∷ players) (packets ∷ received) =
    record player { lie = last_summoned player.lie (events_of packets) } ∷ informed players received

abbrev pub round_events : List Player → List (List Packet) → List Event
round_events [] received = []
round_events (player ∷ players) [] = []
round_events (player ∷ players) (packets ∷ received) =
    events_of packets ++ round_events players received

-- What the players are sent: the same state, each with its own last influential event.
abbrev pub reports : State → List Player → List Message
reports stat [] = []
reports stat (player ∷ players) =
    (player.socket, state (record stat { lie = player.lie })) ∷ reports stat players

last_summoned-append :
    (lie : ℤ) (xs ys : List Event)
    → last_summoned lie (xs ++ ys) ≡ last_summoned (last_summoned lie xs) ys
last_summoned-append lie [] ys = refl
last_summoned-append lie (x ∷ xs) ys = last_summoned-append x.summon_frame xs ys

abbrev after : Player → List Event → Player
after player evs = record player { lie = last_summoned player.lie evs }

collect_payload_fits :
    (x : Payload) (player : Player) (evs : List Event)
    → length evs + length (payload_events x) ≤ max_events
    → collect_payload x (player, evs)
      ≡ some (after player (payload_events x), evs ++ payload_events x)
unfolding collect_payload put_event
collect_payload_fits (event ev) player evs room =
    rw (lt→ltb (length evs) max_events (omega arith)) refl
collect_payload_fits (test_packet_1 a b) player evs room =
    ap (λ l. some (player, l)) (sym (append-nil evs))
collect_payload_fits (test_packet_2 a b) player evs room =
    ap (λ l. some (player, l)) (sym (append-nil evs))
collect_payload_fits (handshake a) player evs room =
    ap (λ l. some (player, l)) (sym (append-nil evs))
collect_payload_fits (plain_text a) player evs room =
    ap (λ l. some (player, l)) (sym (append-nil evs))
collect_payload_fits disconnected player evs room =
    ap (λ l. some (player, l)) (sym (append-nil evs))
collect_payload_fits connected player evs room = ap (λ l. some (player, l)) (sym (append-nil evs))
collect_payload_fits (ball a) player evs room = ap (λ l. some (player, l)) (sym (append-nil evs))
collect_payload_fits (state a) player evs room = ap (λ l. some (player, l)) (sym (append-nil evs))
collect_payload_fits (unknown a) player evs room = ap (λ l. some (player, l)) (sym (append-nil evs))

collect_payload_overflow :
    (x : Payload) (player : Player) (evs : List Event)
    → length evs ≤ max_events
    → max_events < length evs + length (payload_events x)
    → collect_payload x (player, evs) ≡ none
unfolding collect_payload put_event
collect_payload_overflow (event ev) player evs h over =
    elim (Bool-cases (ltb (length evs) max_events)) [
      | inl e ↦ let lt : length evs < max_events = ground arith in absurd (omega arith)
      | inr e ↦ rw e refl
    ]
collect_payload_overflow (test_packet_1 a b) player evs h over = absurd (omega arith)
collect_payload_overflow (test_packet_2 a b) player evs h over = absurd (omega arith)
collect_payload_overflow (handshake a) player evs h over = absurd (omega arith)
collect_payload_overflow (plain_text a) player evs h over = absurd (omega arith)
collect_payload_overflow disconnected player evs h over = absurd (omega arith)
collect_payload_overflow connected player evs h over = absurd (omega arith)
collect_payload_overflow (ball a) player evs h over = absurd (omega arith)
collect_payload_overflow (state a) player evs h over = absurd (omega arith)
collect_payload_overflow (unknown a) player evs h over = absurd (omega arith)

-- The events of a player that fit the array are put behind those that are there.
collect_packets_fits :
    (packets : List Packet) (player : Player) (evs : List Event)
    → length evs + length (events_of packets) ≤ max_events
    → collect_packets packets (player, evs)
      ≡ some (after player (events_of packets), evs ++ events_of packets)
unfolding collect_packets
collect_packets_fits [] player evs room = ap (λ l. some (player, l)) (sym (append-nil evs))
collect_packets_fits (packet ∷ packets) player evs room =
    let new = payload_events packet.payload in
    let split = length-append new (events_of packets) in
    ap (λ o. o >>= λ s. collect_packets packets s)
      (collect_payload_fits packet.payload player evs (omega (arith, split)))
    ∙ collect_packets_fits packets (after player new) (evs ++ new)
        (omega (arith, split, length-append evs new))
    ∙ ap (λ lie. some (record player { lie = lie }, (evs ++ new) ++ events_of packets))
        (sym (last_summoned-append player.lie new (events_of packets)))
    ∙ ap (λ l. some (after player (new ++ events_of packets), l))
        (append_assoc evs new (events_of packets))

-- Events that do not are written behind the array.
collect_packets_overflow :
    (packets : List Packet) (player : Player) (evs : List Event)
    → length evs ≤ max_events
    → max_events < length evs + length (events_of packets)
    → collect_packets packets (player, evs) ≡ none
unfolding collect_packets
collect_packets_overflow [] player evs h over = absurd (omega arith)
collect_packets_overflow (packet ∷ packets) player evs h over =
    let new = payload_events packet.payload in
    let split = length-append new (events_of packets) in
    elim (Bool-cases (ltb max_events (length evs + length new))) [
      | inl e ↦
          let more : max_events < length evs + length new = ground arith in
          ap (λ o. o >>= λ s. collect_packets packets s)
            (collect_payload_overflow packet.payload player evs h more)
      | inr e ↦
          let less : length evs + length new ≤ max_events = ground arith in
          ap (λ o. o >>= λ s. collect_packets packets s)
            (collect_payload_fits packet.payload player evs less)
          ∙ collect_packets_overflow packets (after player new) (evs ++ new)
              (omega (arith, less, length-append evs new))
              (omega (arith, split, length-append evs new))
    ]

pub collect_fits :
    (players : List Player) (received : List (List Packet)) (evs : List Event)
    → length evs + length (round_events players received) ≤ max_events
    → collect players received evs
      ≡ some (informed players received, evs ++ round_events players received)
unfolding collect
collect_fits [] received evs room = ap (λ l. some ([], l)) (sym (append-nil evs))
collect_fits (player ∷ players) [] evs room =
    ap (λ l. some (player ∷ players, l)) (sym (append-nil evs))
collect_fits (player ∷ players) (packets ∷ received) evs room =
    let split = length-append (events_of packets) (round_events players received) in
    rw
      (
        collect_packets_fits packets player evs (omega (arith, split)),
        collect_fits players received (evs ++ events_of packets)
            (omega (arith, split, length-append evs (events_of packets))),
      )
      (ap
        (λ l. some (
          record player { lie = last_summoned player.lie (events_of packets) }
              ∷ informed players received,
          l,
        ))
        (append_assoc evs (events_of packets) (round_events players received)))

pub collect_overflow :
    (players : List Player) (received : List (List Packet)) (evs : List Event)
    → length evs ≤ max_events
    → max_events < length evs + length (round_events players received)
    → collect players received evs ≡ none
unfolding collect
collect_overflow [] received evs h over = absurd (omega arith)
collect_overflow (player ∷ players) [] evs h over = absurd (omega arith)
collect_overflow (player ∷ players) (packets ∷ received) evs h over =
    let split = length-append (events_of packets) (round_events players received) in
    elim (Bool-cases (ltb max_events (length evs + length (events_of packets)))) [
      | inl e ↦
          let more : max_events < length evs + length (events_of packets) = ground arith in
          rw (collect_packets_overflow packets player evs h more) refl
      | inr e ↦
          let less : length evs + length (events_of packets) ≤ max_events = ground arith in
          rw
            (
              collect_packets_fits packets player evs less,
              collect_overflow players received (evs ++ events_of packets)
                  (omega (arith, less, length-append evs (events_of packets)))
                  (omega (arith, split, length-append evs (events_of packets))),
            )
            refl
    ]

-- The first component of what is sent, and that only the last influential event changes.
pub send_states_lem :
    (players : List Player) (stat : State)
    → ((send_states players stat).0 ≡ reports stat players)
      × ((lie : ℤ) × ((send_states players stat).1 ≡ record stat { lie = lie }))
unfolding send_states
send_states_lem [] stat = (refl, (stat.lie, refl))
send_states_lem (player ∷ players) stat =
    let (a, (lie, b)) = send_states_lem players (record stat { lie = player.lie }) in
    (
      ap (λ l. (player.socket, state (record stat { lie = player.lie })) ∷ l)
          (a ∙ reports_lie players),
      (lie, b),
    )
  where
    reports_lie :
        (players : List Player)
        → reports (record stat { lie = player.lie }) players ≡ reports stat players
    reports_lie [] = refl
    reports_lie (other ∷ players) =
        ap (λ l. (other.socket, state (record stat { lie = other.lie })) ∷ l) (reports_lie players)
