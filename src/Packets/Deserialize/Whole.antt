-- ===== src/Packets/Deserialize/Whole.antt =====
-- A whole packet goes through `packet_serialize`, the bytes on the wire, and
-- `packet_deserialize`.
use sasd_protocols.Prelude.{
  ℕ, ◌+◌, ◌≤◌, ◌<◌, ◌≡◌, List, [], ◌++◌, length, append-nil, arith, ℤ, pos, Bool, true, false, some,
}
use sasd_protocols.Prelude.Word.{InWidth, mod8, mod32, mod64}
use sasd_protocols.Buffer.Types.{Buffer, Handle, live, Allocator}
use sasd_protocols.Buffer.Push.{char_bytes, int16_bytes, int32_bytes, buffer_from_data, pushed}
use sasd_protocols.Buffer.Push.Fits.{holding, pushed-holding, buffer_from_data-holding}
use sasd_protocols.Buffer.Pop.{Reader, got}
use sasd_protocols.Buffer.Pop.Reads.{
  Reads, Reads-bind, Reads-last, reading, pure-Reads, pop_char-Reads, pop_int16-Reads,
  pop_int32-Reads,
}
use sasd_protocols.Packets.Types.{
  Payload, test_packet_1, test_packet_2, handshake, plain_text, disconnected, connected, ball,
  state, event, unknown,
}
use sasd_protocols.Packets.Layout.{
  event_bytes, payload_bytes, tag_of, packet_size, packet_bytes, IsSent,
}
use sasd_protocols.Packets.Layout.Lengths.{length-ball_bytes, length-state_bytes}
use sasd_protocols.Packets.Serialize.{packet_serialize}
use sasd_protocols.Packets.Serialize.Whole.{Grants, packet_serialize-holding}
use sasd_protocols.Packets.Deserialize.{Memory, sender_deserialize, packet_deserialize}
use sasd_protocols.Packets.Deserialize.RoundTrip.{received, payload-Reads}

pub packet_size_bounds : (p : Payload) → IsSent p → packet_size p ≤ 400
unfolding payload_bytes
packet_size_bounds (test_packet_1 data1 data2) v = omega arith
packet_size_bounds (test_packet_2 data1 data2) v = omega arith
packet_size_bounds (handshake client_id) v = omega arith
packet_size_bounds (plain_text text) v = omega arith
packet_size_bounds disconnected v = omega arith
packet_size_bounds connected v = omega arith
packet_size_bounds (ball b) v = omega (arith, length-ball_bytes b v)
packet_size_bounds (state s) v = omega (arith, length-state_bytes s v)
packet_size_bounds (event ev) v = unfold event_bytes in omega arith
packet_size_bounds (unknown tag) v = absurd v

tag-InWidth : (p : Payload) → IsSent p → InWidth mod8 (tag_of p)
tag-InWidth (test_packet_1 data1 data2) v = omega arith
tag-InWidth (test_packet_2 data1 data2) v = omega arith
tag-InWidth (handshake client_id) v = omega arith
tag-InWidth (plain_text text) v = omega arith
tag-InWidth disconnected v = omega arith
tag-InWidth connected v = omega arith
tag-InWidth (ball b) v = omega arith
tag-InWidth (state s) v = omega arith
tag-InWidth (event ev) v = omega arith
tag-InWidth (unknown tag) v = absurd v

-- The packet as a server passes it on: the sender's number behind a size that counts it.
abbrev pub relayed_bytes : ℤ → Payload → List ℕ
relayed_bytes id p =
    int16_bytes (pos (packet_size p + 4))
    ++ (int32_bytes id ++ (char_bytes (tag_of p) ++ payload_bytes p))

module _ (memory : Memory) (p : Payload) (v : IsSent p) where
  body-Reads :
      (parse : Bool) (n : ℕ) (id : ℤ) (xs : List ℕ)
      → n ≤ 1000
      → Reads (sender_deserialize memory parse) xs id
      → Reads
          (packet_deserialize memory parse)
          (int16_bytes (pos n) ++ (xs ++ (char_bytes (tag_of p) ++ payload_bytes p)))
          (record { size = pos n; sender_id = id; payload = received memory p })
  unfolding packet_deserialize
  body-Reads parse n id xs h s = Reads-bind _ (pop_int16-Reads (pos n) (omega arith, omega arith)) (
      Reads-bind _ s (
        Reads-bind _ (pop_char-Reads (tag_of p) (tag-InWidth p v))
          (Reads-last _ (payload-Reads memory p v))))

  pub packet-Reads : Reads (packet_deserialize memory false) (packet_bytes p) (record {
    size = pos (packet_size p);
    sender_id = memory.sender_id;
    payload = received memory p;
  })
  unfolding sender_deserialize
  packet-Reads =
      body-Reads false (packet_size p) memory.sender_id [] (omega (arith, packet_size_bounds p v))
        (pure-Reads memory.sender_id)

  pub relayed-Reads :
      (id : ℤ)
      → InWidth mod32 id
      → Reads
          (packet_deserialize memory true)
          (relayed_bytes id p)
          (record { size = pos (packet_size p + 4); sender_id = id; payload = received memory p })
  unfolding sender_deserialize
  relayed-Reads id w =
      body-Reads true (packet_size p + 4) id (int32_bytes id)
        (omega (arith, packet_size_bounds p v)) (pop_int32-Reads id w)

-- A buffer of `buffer_from_data` all of which was read.
abbrev pub drained : List ℕ → Buffer
drained xs = record {
  rptr = length xs;
  wptr = length xs;
  size = length xs;
  bytes = xs;
  allocated = length xs;
}

-- A reader applied to a buffer that holds just what it takes.
pub Reads-whole :
    {A : Type 0} {m : Reader A} {xs : List ℕ} {a : A}
    → Reads m xs a
    → length xs < mod64
    → m (holding (length xs) xs) ≡ got a (drained xs)
Reads-whole {m = m} {xs = xs} {a = a} r h =
    let e : m (reading [] (xs ++ [])) ≡ got a (reading xs []) = r.read [] [] (omega arith) in
    rw append-nil at e

-- Every payload that a caller can hand over comes out as it went in, through `packet_serialize`,
-- the bytes that `send_packet` sends, `buffer_from_data` and `packet_deserialize` (with no sender
-- to parse), if `malloc` does not fail; but a state has the death count that the receiver's
-- memory held. The packet gives its own size, and nothing is left unread.
pub packet_deserialize-packet_serialize :
    (heap : Allocator) (memory : Memory) (p : Payload)
    → Grants heap
    → IsSent p
    → (h : Handle) × (b : Buffer) × (packet_serialize heap p ≡ some h)
      × (buffer_from_data heap (pushed h) ≡ live b)
      × (packet_deserialize memory false b
          ≡ got
              (record {
                size = pos (packet_size p);
                sender_id = memory.sender_id;
                payload = received memory p;
              })
              (drained (pushed h)))
      × (length (pushed h) ≡ packet_size p)
packet_deserialize-packet_serialize heap memory p grants v =
    let xs = packet_bytes p in
    let small : length xs < mod64 = omega (arith, packet_size_bounds p v) in
    (
      live (holding (packet_size p) xs),
      holding (length xs) xs,
      packet_serialize-holding heap grants p v,
      rw (pushed-holding (packet_size p) xs)
          (buffer_from_data-holding heap xs (grants (length xs))),
      rw (pushed-holding (packet_size p) xs) (Reads-whole (packet-Reads memory p v) small),
      rw (pushed-holding (packet_size p) xs) (omega arith),
    )
