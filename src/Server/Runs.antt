-- ===== src/Server/Runs.antt =====
-- Concrete runs of src/server.c, and the theorem about a broadcast at concrete clients.
use sasd_protocols.Prelude.{
  ◌≡◌, refl, [], ◌∷◌, ◌++◌, ℕ, List, Option, none, All, ◌≢◌, ◌⊎◌, ℤ, pos, some, Returns, true,
  arith,
}
use sasd_protocols.Buffer.Types.{Allocator, Realloc, done, failed}
use sasd_protocols.Bvec.{contents, Bvec}
use sasd_protocols.Bvec.Laws.{IsBvec, Reallocs}
use sasd_protocols.Packets.Types.{Payload, handshake}
use sasd_protocols.Packets.Layout.{packet_bytes, payload_bytes}
use sasd_protocols.Packets.Deserialize.Whole.{relayed_bytes}
use sasd_protocols.Server.{
  Client, Context, server_broadcast, packet_round, send_loop, server_client_shutdown, client_flush,
}
use sasd_protocols.Server.Round.{Relayed, HasRooms, packet_round-packet}
use sasd_protocols.Server.Leave.{
  TakenOut, server_client_shutdown-TakenOut, client_flush-prefix, client_flush-whole,
}
use sasd_protocols.Server.Relay.{HasRoom, PassedOn, Each, server_broadcast-packet}

abbrev plenty : Allocator
plenty = record { malloc = λ n. true; realloc = λ n. Realloc.same }

plenty-Reallocs : Reallocs plenty
plenty-Reallocs n e = ground arith

-- It has room for the eleven bytes of a relayed handshake only after it has grown.
abbrev empty : Bvec
empty = record { wptr = 0; size = 8; bytes = []; allocated = 8 }

abbrev client : ℤ → Client
client id = record { id = id; hbuffer = empty; sbuffer = empty; notified = 0 }

abbrev two_clients : Context
two_clients = record { client_count = pos 2; clients = client (pos 1) ∷ client (pos 0) ∷ [] }

abbrev hello : Payload
hello = handshake (pos 258)

empty-HasRoom : HasRoom 11 empty
empty-HasRoom = record {
  valid = record { written = omega arith; inside = omega arith; block = refl; small = omega arith };
  room = omega arith;
  small = omega arith;
}

server_broadcast-packet_example :
    Returns
      (λ ctx'.
        (ctx'.client_count ≡ pos 2)
        × Each (PassedOn (pos 1) (relayed_bytes (pos 1) hello)) two_clients.clients ctx'.clients)
      (server_broadcast plenty (pos 1) (packet_bytes hello) two_clients)
unfolding payload_bytes
server_broadcast-packet_example =
    server_broadcast-packet plenty (λ n. refl) plenty-Reallocs (pos 1) hello two_clients
      (omega arith) (empty-HasRoom, (empty-HasRoom, tt))

-- `send` takes two bytes, then three.
sent_in_two : send_loop (some 2 ∷ some 3 ∷ []) (1 ∷ 2 ∷ 3 ∷ 4 ∷ 5 ∷ []) ≡ 1 ∷ 2 ∷ 3 ∷ 4 ∷ 5 ∷ []
unfolding send_loop
sent_in_two = refl

-- What client 0 has read: a packet and one byte of the next one.
abbrev read_so_far : Bvec
read_so_far = record {
  wptr = 8;
  size = 1024;
  bytes = packet_bytes hello ++ (0 ∷ []);
  allocated = 1024;
}

read_so_far-IsBvec : IsBvec read_so_far
unfolding payload_bytes
read_so_far-IsBvec = record {
  written = omega arith;
  inside = omega arith;
  block = refl;
  small = omega arith;
}

client-HasRooms : (id : ℤ) → HasRooms hello (client id)
unfolding payload_bytes
client-HasRooms id = record { history = empty-HasRoom; send_buffer = empty-HasRoom }

packet_round-packet_example :
    Returns
      (λ s.
        IsBvec s.0
        × (contents s.0 ≡ 0 ∷ [])
        × (s.1.client_count ≡ pos 2)
        × Each (Relayed (pos 0) (relayed_bytes (pos 0) hello)) two_clients.clients s.1.clients)
      (packet_round plenty (pos 0) (read_so_far, two_clients))
unfolding payload_bytes contents
packet_round-packet_example =
    packet_round-packet plenty (λ n. refl) plenty-Reallocs (pos 0) hello read_so_far (0 ∷ [])
      two_clients (omega arith) read_so_far-IsBvec refl
      (client-HasRooms (pos 1), (client-HasRooms (pos 0), tt))

server_client_shutdown-TakenOut_example :
    ((server_client_shutdown (pos 0) two_clients ≡ (failed, two_clients))
      × All (λ c. c.id ≢ pos 0) two_clients.clients)
    ⊎ ((cs : List Client) × (server_client_shutdown (pos 0) two_clients
          ≡ (done, record two_clients { clients = cs }))
        × TakenOut (pos 0) two_clients.clients cs)
server_client_shutdown-TakenOut_example = server_client_shutdown-TakenOut (pos 0) two_clients

-- A client that is to be sent five bytes, in two calls of `send`, or with an error after one.
abbrev addressed : Client
addressed = record (client (pos 0)) {
  sbuffer = record { wptr = 5; size = 2048; bytes = 1 ∷ 2 ∷ 3 ∷ 4 ∷ 5 ∷ []; allocated = 2048 };
  notified = 1;
}

abbrev interrupted : List (Option ℕ)
interrupted = some 2 ∷ none ∷ []

client_flush-prefix_example :
    ((left : List ℕ) × ((client_flush interrupted addressed).0 ++ left
        ≡ contents addressed.sbuffer))
    × (contents (client_flush interrupted addressed).1.sbuffer ≡ [])
    × ((client_flush interrupted addressed).1.notified ≡ 0)
client_flush-prefix_example = client_flush-prefix interrupted addressed

abbrev taken : List (Option ℕ)
taken = some 2 ∷ some 1 ∷ some 1 ∷ some 1 ∷ some 7 ∷ []

client_flush-whole_example : (client_flush taken addressed).0 ≡ contents addressed.sbuffer
unfolding contents
client_flush-whole_example = client_flush-whole taken addressed (omega arith) (omega arith)
