-- ===== src/Packets/Serialize.antt =====
-- The functions of src/packets.c that serialise a packet. They ignore the codes that the
-- functions of src/buffer.c return.
pub mod Fills
pub mod Whole
use sasd_protocols.Prelude.{
  ℕ, ◌+◌, ◌*◌, List, [], ◌∷◌, length, ℤ, pos, ◌+ℤ◌, Option, none, some, pos_part,
}
use sasd_protocols.Prelude.Word.{wrap, bits, mod16, mod64}
use sasd_protocols.Balls.Types.{Ball, State, Event, n_buttons, n_balls, max_players}
use sasd_protocols.Buffer.Types.{Handle, Allocator}
use sasd_protocols.Buffer.Push.{buffer_create, push_char, push_int16, push_int32, push_string}
use sasd_protocols.Packets.Types.{
  Payload, test_packet_1, test_packet_2, handshake, plain_text, disconnected, connected, ball,
  state, event, unknown,
}
use sasd_protocols.Packets.Tag

abbrev pub state_size : ℕ
state_size = 1 + 4 + 4 * max_players + (20 + n_buttons) * n_balls + 4

module _ (heap : Allocator) where
  unfoldable pub push_char' : Handle → ℤ → Handle
  push_char' h c = (push_char heap h c).1

  unfoldable pub push_int16' : Handle → ℤ → Handle
  push_int16' h z = (push_int16 heap h z).1

  unfoldable pub push_int32' : Handle → ℤ → Handle
  push_int32' h z = (push_int32 heap h z).1

  pub push_string' : Handle → List ℕ → Handle
  push_string' h xs = (push_string heap h xs).1

  -- The parameter is an `int16_t`; the sum is an `int`, which is made a `size_t` for the buffer
  -- and an `int16_t` for the header.
  unfoldable pub header_serialize : ℤ → ℤ → Handle
  header_serialize psize0 ptype =
      let total = pos 3 +ℤ wrap mod16 psize0 in
      let h = buffer_create heap (bits mod64 total) in
      push_char' (push_int16' h (wrap mod16 total)) ptype

  pub test_packet_1_serialize : ℤ → ℤ → Handle
  test_packet_1_serialize data1 data2 =
      let h = header_serialize (pos 5) Tag.test_packet_1 in push_char' (push_int32' h data1) data2

  pub test_packet_2_serialize : ℤ → ℤ → Handle
  test_packet_2_serialize data1 data2 =
      let h = header_serialize (pos 6) Tag.test_packet_2 in push_int16' (push_int32' h data1) data2

  unfoldable pub handshake_serialize : ℤ → Handle
  handshake_serialize client_id = push_int32' (header_serialize (pos 4) Tag.handshake) client_id

  pub plain_text_serialize : List ℕ → Handle
  plain_text_serialize text =
      push_string' (header_serialize (pos (2 + length text)) Tag.plain_text) text

  pub disconnected_serialize : Handle
  disconnected_serialize = header_serialize (pos 0) Tag.disconnected

  unfoldable pub connected_serialize : Handle
  connected_serialize = header_serialize (pos 0) Tag.connected

  -- A `for` over an array of `char`s, or of `int32_t`s.
  pub push_chars : Handle → List ℤ → Handle
  push_chars h [] = h
  push_chars h (c ∷ cs) = push_chars (push_char' h c) cs

  pub push_int32s : Handle → List ℤ → Handle
  push_int32s h [] = h
  push_int32s h (z ∷ zs) = push_int32s (push_int32' h z) zs

  -- `_ball_serialize` into a buffer that is given
  pub ball_push : Handle → Ball → Handle
  ball_push h0 b =
      let h1 = push_int32' h0 b.p_x in
      let h2 = push_int32' h1 b.p_y in
      let h3 = push_int32' h2 b.v_x in
      let h4 = push_int32' h3 b.v_y in
      let h5 = push_int32' h4 b.player in push_chars h5 b.button_states

  -- `_ball_serialize` with no buffer given
  pub ball_serialize : Ball → Handle
  ball_serialize b = ball_push (header_serialize (pos (20 + n_buttons)) Tag.ball) b

  pub push_balls : Handle → List Ball → Handle
  push_balls h [] = h
  push_balls h (b ∷ bs) = push_balls (ball_push h b) bs

  -- `death_count` is not sent.
  pub state_serialize : State → Handle
  state_serialize s =
      let h0 = header_serialize (pos state_size) Tag.state in
      let h1 = push_char' h0 s.paused in
      let h2 = push_int32' h1 s.frame in
      let h3 = push_int32s h2 s.scores in let h4 = push_balls h3 s.balls in push_int32' h4 s.lie

  pub event_serialize : Event → Handle
  event_serialize ev =
      let h0 = header_serialize (pos (12 + 2)) Tag.event in
      let h1 = push_int32' h0 ev.frame in
      let h2 = push_int32' h1 ev.summon_frame in
      let h3 = push_int32' h2 ev.player in
      let h4 = push_char' h3 ev.button in push_char' h4 ev.pressed

  -- `none` is the null pointer.
  unfoldable pub packet_serialize : Payload → Option Handle
  packet_serialize (test_packet_1 data1 data2) = some (test_packet_1_serialize data1 data2)
  packet_serialize (test_packet_2 data1 data2) = some (test_packet_2_serialize data1 data2)
  packet_serialize (handshake client_id) = some (handshake_serialize client_id)
  packet_serialize (plain_text text) = some (plain_text_serialize text)
  packet_serialize disconnected = some disconnected_serialize
  packet_serialize connected = some connected_serialize
  packet_serialize (ball b) = some (ball_serialize b)
  packet_serialize (state s) = some (state_serialize s)
  packet_serialize (event ev) = some (event_serialize ev)
  packet_serialize (unknown tag) = none
