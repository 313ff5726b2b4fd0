-- ===== src/Packets/Serialize/Whole.antt =====
-- `packet_serialize` writes the bytes of Packets/Layout, and they fill the buffer exactly.
use sasd_protocols.Prelude.{
  ℕ, ◌+◌, ◌≤◌, ◌<◌, ◌≡◌, refl, sym, ap, ◌∙◌, List, [], ◌++◌, length, arith, ℤ, pos, ◌+ℤ◌, some,
  true,
}
use sasd_protocols.Prelude.Word.{bits, signed-bits_16, mod64}
use sasd_protocols.Buffer.Types.{Handle, live, Allocator}
use sasd_protocols.Buffer.Push.{char_bytes, int16_bytes}
use sasd_protocols.Buffer.Push.Fits.{holding, buffer_create-holding}
use sasd_protocols.Packets.Types.{
  Payload, test_packet_1, test_packet_2, handshake, plain_text, disconnected, connected, ball,
  state, event, unknown,
}
use sasd_protocols.Packets.Tag
use sasd_protocols.Packets.Layout.{event_bytes, payload_bytes, packet_size, packet_bytes, IsSent}
use sasd_protocols.Packets.Layout.Lengths.{length-ball_bytes, length-state_bytes}
use sasd_protocols.Packets.Serialize.Fills.{
  Fills, Fills-then, char-Fills, int16-Fills, int32-Fills, string-Fills, ball-Fills, state-Fills,
  event-Fills,
}
use sasd_protocols.Packets.Serialize.{
  state_size, push_char', push_int16', push_int32', push_string', header_serialize,
  test_packet_1_serialize, test_packet_2_serialize, handshake_serialize, plain_text_serialize,
  disconnected_serialize, connected_serialize, ball_push, ball_serialize, state_serialize,
  event_serialize, packet_serialize,
}

-- Memory does not run out.
abbrev pub Grants : Allocator → Type 0
Grants heap = (n : ℕ) → heap.malloc n ≡ true

pub pos-add : (m n : ℕ) → pos m +ℤ pos n ≡ pos (m + n)
unfolding ◌+ℤ◌
pos-add m n = ground arith

bits-pos_64 : (n : ℕ) → n < mod64 → bits mod64 (pos n) ≡ n
unfolding bits
bits-pos_64 n h = omega arith

module _ (heap : Allocator) (grants : Grants heap) where
  header-holding :
      (n : ℕ) (tag : ℤ)
      → n ≤ 1000
      → header_serialize heap (pos n) tag
        ≡ live (holding (3 + n) (int16_bytes (pos (3 + n)) ++ char_bytes tag))
  unfolding header_serialize
  header-holding n tag h =
      rw
        (
          signed-bits_16 (pos n) (omega arith, omega arith),
          pos-add 3 n,
          bits-pos_64 (3 + n) (omega arith),
          signed-bits_16 (pos (3 + n)) (omega arith, omega arith),
          buffer_create-holding heap (3 + n) (grants (3 + n)),
          (int16-Fills heap (small n h) (pos (3 + n))).fill [] (omega arith),
        )
        ((char-Fills heap (small n h) tag).fill (int16_bytes (pos (3 + n))) (omega arith))
    where
      small : (n : ℕ) → n ≤ 1000 → 3 + n < mod64
      small n h = omega arith

  -- A body that fills what the header reserved gives the whole packet.
  body-holding :
      (f : Handle → Handle) (n : ℕ) (tag : ℤ) (ys : List ℕ)
      → ((size : ℕ) → size < mod64 → Fills size f ys)
      → length ys ≡ n
      → n ≤ 1000
      → f (header_serialize heap (pos n) tag)
        ≡ live
            (holding (3 + length ys) (int16_bytes (pos (3 + length ys)) ++ (char_bytes tag ++ ys)))
  body-holding f n tag ys p e h =
      rw (header-holding n tag h)
        ((p (3 + n) (omega arith)).fill (int16_bytes (pos (3 + n)) ++ char_bytes tag) (omega arith))
      ∙ ap (λ k. live (holding (3 + k) (int16_bytes (pos (3 + k)) ++ (char_bytes tag ++ ys))))
          (sym e)

  -- Every payload that a caller can hand over is serialised, with no reallocation, into a buffer
  -- that holds exactly the packet of Packets/Layout and that has no byte more, if `malloc` does
  -- not fail.
  pub packet_serialize-holding :
      (p : Payload)
      → IsSent p
      → packet_serialize heap p ≡ some (live (holding (packet_size p) (packet_bytes p)))
  unfolding packet_serialize payload_bytes
  packet_serialize-holding (test_packet_1 data1 data2) v =
      unfold test_packet_1_serialize in
      ap some (
        body-holding (λ h. push_char' heap (push_int32' heap h data1) data2) 5 _ _
          (λ size small. Fills-then (int32-Fills heap small data1) (char-Fills heap small data2))
          refl (omega arith))
  packet_serialize-holding (test_packet_2 data1 data2) v =
      unfold test_packet_2_serialize in
      ap some (
        body-holding (λ h. push_int16' heap (push_int32' heap h data1) data2) 6 _ _
          (λ size small. Fills-then (int32-Fills heap small data1) (int16-Fills heap small data2))
          refl (omega arith))
  packet_serialize-holding (handshake client_id) v =
      unfold handshake_serialize in
      ap some (
        body-holding (λ h. push_int32' heap h client_id) 4 _ _
          (λ size small. int32-Fills heap small client_id) refl (omega arith))
  packet_serialize-holding (plain_text text) v =
      unfold plain_text_serialize in
      ap some (
        body-holding (λ h. push_string' heap h text) (2 + length text) _ _
          (λ size small. text-Fills size small) (omega arith) (omega arith))
    where
      text-Fills :
          (size : ℕ)
          → size < mod64
          → Fills size (λ h. push_string' heap h text) (int16_bytes (pos (length text)) ++ text)
      text-Fills size small =
          rw (signed-bits_16 (pos (length text)) (omega arith, omega arith)) at
            (string-Fills heap small text)
  packet_serialize-holding disconnected v =
      unfold disconnected_serialize in ap some (header-holding 0 Tag.disconnected (omega arith))
  packet_serialize-holding connected v =
      unfold connected_serialize in ap some (header-holding 0 Tag.connected (omega arith))
  packet_serialize-holding (ball b) v =
      unfold ball_serialize in
      ap some (
        body-holding (λ h. ball_push heap h b) 24 _ _ (λ size small. ball-Fills heap small b)
          (length-ball_bytes b v) (omega arith))
  packet_serialize-holding (state s) v =
      unfold state_serialize in
      ap some (
        body-holding _ state_size _ _ (λ size small. state-Fills heap small s)
          (length-state_bytes s v) (omega arith))
  packet_serialize-holding (event ev) v =
      unfold event_serialize event_bytes in
      ap some (body-holding _ 14 _ _ (λ size small. event-Fills heap small ev) refl (omega arith))
  packet_serialize-holding (unknown tag) v = absurd v
