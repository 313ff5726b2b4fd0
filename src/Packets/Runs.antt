-- ===== src/Packets/Runs.antt =====
-- Concrete runs, and the theorems about src/packets.c at concrete inputs.
use sasd_protocols.Prelude.{◌≡◌, refl, pos, negsuc, [], ◌∷◌, length, true, false, some, arith}
use sasd_protocols.Prelude.Word.{bits, bytes2, bytes4}
use sasd_protocols.Buffer.Types.{Buffer, Handle, live, Allocator, Realloc}
use sasd_protocols.Buffer.Push.{buffer_from_data, pushed}
use sasd_protocols.Buffer.Push.Fits.{holding}
use sasd_protocols.Buffer.Pop.{got}
use sasd_protocols.Packets.Types.{Payload, event}
use sasd_protocols.Packets.Layout.{packet_size, packet_bytes, event_bytes, payload_bytes}
use sasd_protocols.Packets.Serialize.{packet_serialize}
use sasd_protocols.Packets.Serialize.Whole.{packet_serialize-holding}
use sasd_protocols.Packets.Deserialize.{Memory, packet_deserialize}
use sasd_protocols.Packets.Deserialize.RoundTrip.{received}
use sasd_protocols.Packets.Deserialize.Whole.{drained, packet_deserialize-packet_serialize}

abbrev pub plenty : Allocator
plenty = record { malloc = λ n. true; realloc = λ n. Realloc.moved }

abbrev pub memory : Memory
memory = record { sender_id = negsuc 4; death_count = pos 0 }

abbrev pub press : Payload
press = event (record {
  frame = pos 300;
  summon_frame = pos 292;
  player = pos 2;
  button = pos 1;
  pressed = pos 1;
})

press_bytes :
    packet_bytes press
    ≡ 0 ∷ 17 ∷ b'e' ∷ 0 ∷ 0 ∷ 1 ∷ 44 ∷ 0 ∷ 0 ∷ 1 ∷ 36 ∷ 0 ∷ 0 ∷ 0 ∷ 2 ∷ 1 ∷ 1 ∷ []
unfolding payload_bytes event_bytes bits bytes2 bytes4
press_bytes = refl

packet_deserialize-packet_serialize_example :
    (h : Handle) × (b : Buffer) × (packet_serialize plenty press ≡ some h)
    × (buffer_from_data plenty (pushed h) ≡ live b)
    × (packet_deserialize memory false b
        ≡ got
            (record {
              size = pos (packet_size press);
              sender_id = memory.sender_id;
              payload = received memory press;
            })
            (drained (pushed h)))
    × (length (pushed h) ≡ packet_size press)
packet_deserialize-packet_serialize_example =
    packet_deserialize-packet_serialize plenty memory press (λ n. refl) (omega arith)

packet_serialize-holding_example :
    packet_serialize plenty press ≡ some (live (holding (packet_size press) (packet_bytes press)))
packet_serialize-holding_example = packet_serialize-holding plenty (λ n. refl) press (omega arith)
