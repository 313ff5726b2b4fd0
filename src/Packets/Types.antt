-- ===== src/Packets/Types.antt =====
-- The structs of src/packets.h.
use sasd_protocols.Prelude.{ℕ, ℤ, List}
use sasd_protocols.Balls.Types.{Ball, State, Event}

-- `enum payload_type` with `union payload`: the type tells which member of the union is meant.
-- The text is the bytes before the terminator. `unknown` is a tag of no payload, or `NONE`.
pub data Payload : Type 0 where
  test_packet_1 : ℤ → ℤ → Payload
  test_packet_2 : ℤ → ℤ → Payload
  handshake : ℤ → Payload
  plain_text : List ℕ → Payload
  disconnected : Payload
  connected : Payload
  ball : Ball → Payload
  state : State → Payload
  event : Event → Payload
  unknown : ℤ → Payload

-- `packet_t`
pub record Packet : Type 0 where
  pub size : ℤ
  pub sender_id : ℤ
  pub payload : Payload
