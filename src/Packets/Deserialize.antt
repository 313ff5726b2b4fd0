-- ===== src/Packets/Deserialize.antt =====
-- The functions of src/packets.c that read a packet. `TRY` is the bind of readers: it returns -1
-- where a reader does.
pub mod RoundTrip
pub mod Whole
use sasd_protocols.Prelude.{
  ℕ, zero, suc, ◌+◌, List, [], ◌∷◌, ℤ, pos, eqb_ℤ, Bool, true, false, if◌then◌else◌,
}
use sasd_protocols.Balls.Types.{Ball, State, Event, n_buttons, n_balls, max_players}
use sasd_protocols.Buffer.Pop.{Reader, ◌>>=◌, pure, pop_char, pop_int16, pop_int32, pop_string}
use sasd_protocols.Packets.Types.{
  Payload, Packet, test_packet_1, test_packet_2, handshake, plain_text, disconnected, connected,
  ball, state, event, unknown,
}
use sasd_protocols.Packets.Tag

pub test_packet_1_deserialize : Reader Payload
test_packet_1_deserialize = do data1 ← pop_int32; data2 ← pop_char; pure (test_packet_1 data1 data2)

pub test_packet_2_deserialize : Reader Payload
test_packet_2_deserialize = do
  data1 ← pop_int32
  data2 ← pop_int16
  pure (test_packet_2 data1 data2)

pub handshake_deserialize : Reader Payload
handshake_deserialize = do client_id ← pop_int32; pure (handshake client_id)

pub plain_text_deserialize : Reader Payload
plain_text_deserialize = do text ← pop_string (pos 256); pure (plain_text text)

-- A `for` that reads so many elements of an array.
pub pop_array : {A : Type 0} → ℕ → Reader A → Reader (List A)
pop_array zero m = pure []
pop_array (suc n) m = do x ← m; xs ← pop_array n m; pure (x ∷ xs)

pub ball_deserialize : Reader Ball
ball_deserialize = do
  p_x ← pop_int32
  p_y ← pop_int32
  v_x ← pop_int32
  v_y ← pop_int32
  player ← pop_int32
  button_states ← pop_array n_buttons pop_char
  pure (record {
    p_x = p_x;
    p_y = p_y;
    v_x = v_x;
    v_y = v_y;
    player = player;
    button_states = button_states;
  })

-- What the memory of the `packet_t` holds in the fields that may not be written.
pub record Memory : Type 0 where
  pub sender_id : ℤ
  pub death_count : ℤ

-- `death_count` is not read.
pub state_deserialize : Memory → Reader State
state_deserialize memory = do
  paused ← pop_char
  frame ← pop_int32
  scores ← pop_array max_players pop_int32
  balls ← pop_array n_balls ball_deserialize
  lie ← pop_int32
  pure (record {
    paused = paused;
    frame = frame;
    death_count = memory.death_count;
    scores = scores;
    balls = balls;
    lie = lie;
  })

pub event_deserialize : Reader Event
event_deserialize = do
  frame ← pop_int32
  summon_frame ← pop_int32
  player ← pop_int32
  button ← pop_char
  pressed ← pop_char
  pure (record {
    frame = frame;
    summon_frame = summon_frame;
    player = player;
    button = button;
    pressed = pressed;
  })

-- The `switch`; a tag without a case leaves the payload alone.
pub payload_deserialize : Memory → ℤ → Reader Payload
payload_deserialize memory tag =
    if eqb_ℤ tag Tag.test_packet_1
    then test_packet_1_deserialize
    else (if eqb_ℤ tag Tag.test_packet_2
        then test_packet_2_deserialize
        else (if eqb_ℤ tag Tag.handshake
            then handshake_deserialize
            else (if eqb_ℤ tag Tag.plain_text
                then plain_text_deserialize
                else (if eqb_ℤ tag Tag.disconnected
                    then pure disconnected
                    else (if eqb_ℤ tag Tag.connected
                        then pure connected
                        else (if eqb_ℤ tag Tag.ball
                            then (do b ← ball_deserialize; pure (ball b))
                            else (if eqb_ℤ tag Tag.state
                                then (do s ← state_deserialize memory; pure (state s))
                                else (if eqb_ℤ tag Tag.event
                                    then (do ev ← event_deserialize; pure (event ev))
                                    else pure (unknown tag)))))))))

pub sender_deserialize : Memory → Bool → Reader ℤ
sender_deserialize memory parse_sender = if parse_sender then pop_int32 else pure memory.sender_id

pub packet_deserialize : Memory → Bool → Reader Packet
packet_deserialize memory parse_sender = do
  size ← pop_int16
  sender_id ← sender_deserialize memory parse_sender
  tag ← pop_char
  payload ← payload_deserialize memory tag
  pure (record { size = size; sender_id = sender_id; payload = payload })
