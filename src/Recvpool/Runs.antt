-- ===== src/Recvpool/Runs.antt =====
-- The theorems about src/recvpool.c at concrete inputs.
use sasd_protocols.Prelude.{ℕ, ◌+◌, ◌≡◌, refl, List, [], ◌∷◌, ◌++◌, pos, true, arith}
use sasd_protocols.Prelude.Word.{bits, bytes2, bytes4}
use sasd_protocols.Buffer.Types.{Allocator, Realloc}
use sasd_protocols.Bvec.{contents}
use sasd_protocols.Bvec.Laws.{IsBvec, Reallocs}
use sasd_protocols.Packets.Types.{handshake}
use sasd_protocols.Packets.Layout.{packet_size, payload_bytes}
use sasd_protocols.Packets.Deserialize.RoundTrip
use sasd_protocols.Packets.Deserialize.Whole.{relayed_bytes}
use sasd_protocols.Framing.{ended, running}
use sasd_protocols.Framing.Frames.{IsFrame}
use sasd_protocols.Recvpool.{Pool, frames, received, packet, recvpool_retrieve}
use sasd_protocols.Recvpool.Delivery.{
  node_of, Delivered, received-Delivered, frames-stuck, recvpool_retrieve-relayed, relayed-IsFrame,
}

abbrev plenty : Allocator
plenty = record { malloc = λ n. true; realloc = λ n. Realloc.same }

plenty-Reallocs : Reallocs plenty
plenty-Reallocs n e = ground arith

abbrev hello : List ℕ
hello = relayed_bytes (pos 3) (handshake (pos 258))

-- A thread that has received nothing.
abbrev idle : Pool
idle = record { vec = record { wptr = 0; size = 1024; bytes = []; allocated = 1024 }; pqueue = [] }

idle-IsBvec : IsBvec idle.vec
idle-IsBvec = record {
  written = omega arith;
  inside = omega arith;
  block = refl;
  small = omega arith;
}

-- Two packets and a byte of a third one.
received-Delivered_example :
    (next : Pool) × (received plenty 5 idle (hello ++ (hello ++ (0 ∷ []))) ≡ ended next)
    × Delivered plenty (λ n. refl) idle (hello ∷ hello ∷ []) (0 ∷ []) next
unfolding contents payload_bytes bits bytes2 bytes4
received-Delivered_example =
    received-Delivered plenty (λ n. refl) 5 idle (hello ++ (hello ++ (0 ∷ []))) (hello ∷ hello ∷ [])
      (0 ∷ []) idle-IsBvec plenty-Reallocs (omega arith) (unfold payload_bytes in omega arith)
      (hello-IsFrame, (hello-IsFrame, tt)) refl (omega arith) (omega arith)
  where
    hello-IsFrame : IsFrame hello
    hello-IsFrame = relayed-IsFrame (pos 3) (handshake (pos 258)) (omega arith)

-- Three of the four bytes of a packet.
abbrev waiting : Pool
waiting = record {
  vec = record { wptr = 3; size = 1024; bytes = 0 ∷ 4 ∷ b'h' ∷ []; allocated = 1024 };
  pqueue = [];
}

waiting-IsBvec : IsBvec waiting.vec
waiting-IsBvec = record {
  written = omega arith;
  inside = omega arith;
  block = refl;
  small = omega arith;
}

frames-stuck_example : frames plenty 1000 waiting ≡ running waiting
unfolding contents bits bytes2
frames-stuck_example =
    frames-stuck plenty (λ n. refl) 1000 4 waiting (b'h' ∷ []) waiting-IsBvec refl (omega arith)
      (omega arith) (omega arith)

recvpool_retrieve-relayed_example :
    recvpool_retrieve (record { sender_id = pos 0; death_count = pos 0 }) true (node_of hello ∷ [])
    ≡ packet
        (record {
          size = pos (packet_size (handshake (pos 258)) + 4);
          sender_id = pos 3;
          payload =
              RoundTrip.received
                (record { sender_id = pos 0; death_count = pos 0 })
                (handshake (pos 258));
        })
        []
recvpool_retrieve-relayed_example =
    recvpool_retrieve-relayed (record { sender_id = pos 0; death_count = pos 0 }) (pos 3)
      (handshake (pos 258)) [] (omega arith) (omega arith)
