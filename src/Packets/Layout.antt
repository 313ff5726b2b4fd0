-- ===== src/Packets/Layout.antt =====
-- The bytes of a packet on the wire, as a description that the code does not use: the size of the
-- whole packet, the tag, and the fields of the payload in order, each big-endian.
pub mod Lengths
use sasd_protocols.Prelude.{ℕ, suc, ◌+◌, ◌≤◌, ◌≡◌, List, [], ◌∷◌, ◌++◌, length, All, ℤ, pos}
use sasd_protocols.Prelude.Word.{InWidth, mod8, mod16, mod32}
use sasd_protocols.Balls.Types.{Ball, State, Event, n_buttons, n_balls, max_players}
use sasd_protocols.Buffer.Push.{char_bytes, int16_bytes, int32_bytes}
use sasd_protocols.Packets.Types.{
  Payload, test_packet_1, test_packet_2, handshake, plain_text, disconnected, connected, ball,
  state, event, unknown,
}
use sasd_protocols.Packets.Tag

-- The bytes of the elements of an array, one after the other.
abbrev pub each : {A : Type 0} → (A → List ℕ) → List A → List ℕ
each f [] = []
each f (x ∷ xs) = f x ++ each f xs

unfoldable pub ball_bytes : Ball → List ℕ
ball_bytes b =
    int32_bytes b.p_x
    ++ (int32_bytes b.p_y
        ++ (int32_bytes b.v_x
            ++ (int32_bytes b.v_y ++ (int32_bytes b.player ++ each char_bytes b.button_states))))

unfoldable pub state_bytes : State → List ℕ
state_bytes s =
    char_bytes s.paused
    ++ (int32_bytes s.frame
        ++ (each int32_bytes s.scores ++ (each ball_bytes s.balls ++ int32_bytes s.lie)))

unfoldable pub event_bytes : Event → List ℕ
event_bytes ev =
    int32_bytes ev.frame
    ++ (int32_bytes ev.summon_frame
        ++ (int32_bytes ev.player ++ (char_bytes ev.button ++ char_bytes ev.pressed)))

unfoldable pub payload_bytes : Payload → List ℕ
payload_bytes (test_packet_1 data1 data2) = int32_bytes data1 ++ char_bytes data2
payload_bytes (test_packet_2 data1 data2) = int32_bytes data1 ++ int16_bytes data2
payload_bytes (handshake client_id) = int32_bytes client_id
payload_bytes (plain_text text) = int16_bytes (pos (length text)) ++ text
payload_bytes disconnected = []
payload_bytes connected = []
payload_bytes (ball b) = ball_bytes b
payload_bytes (state s) = state_bytes s
payload_bytes (event ev) = event_bytes ev
payload_bytes (unknown tag) = []

abbrev pub tag_of : Payload → ℤ
tag_of (test_packet_1 data1 data2) = Tag.test_packet_1
tag_of (test_packet_2 data1 data2) = Tag.test_packet_2
tag_of (handshake client_id) = Tag.handshake
tag_of (plain_text text) = Tag.plain_text
tag_of disconnected = Tag.disconnected
tag_of connected = Tag.connected
tag_of (ball b) = Tag.ball
tag_of (state s) = Tag.state
tag_of (event ev) = Tag.event
tag_of (unknown tag) = tag

-- The size of the whole packet: two bytes for itself, one for the tag, and the payload.
abbrev pub packet_size : Payload → ℕ
packet_size p = 3 + length (payload_bytes p)

abbrev pub packet_bytes : Payload → List ℕ
packet_bytes p = int16_bytes (pos (packet_size p)) ++ (char_bytes (tag_of p) ++ payload_bytes p)

-- The values that the fields of the structs can hold.
pub record IsBallSent (b : Ball) : Type 0 where
  pub p_x : InWidth mod32 b.p_x
  pub p_y : InWidth mod32 b.p_y
  pub v_x : InWidth mod32 b.v_x
  pub v_y : InWidth mod32 b.v_y
  pub player : InWidth mod32 b.player
  pub buttons_length : length b.button_states ≡ n_buttons
  pub buttons : All (InWidth mod8) b.button_states

pub record IsStateSent (s : State) : Type 0 where
  pub paused : InWidth mod8 s.paused
  pub frame : InWidth mod32 s.frame
  pub scores_length : length s.scores ≡ max_players
  pub scores : All (InWidth mod32) s.scores
  pub balls_length : length s.balls ≡ n_balls
  pub balls : All IsBallSent s.balls
  pub lie : InWidth mod32 s.lie

pub record IsEventSent (ev : Event) : Type 0 where
  pub frame : InWidth mod32 ev.frame
  pub summon_frame : InWidth mod32 ev.summon_frame
  pub player : InWidth mod32 ev.player
  pub button : InWidth mod8 ev.button
  pub pressed : InWidth mod8 ev.pressed

-- A payload as a caller can hand it to `packet_serialize`: a text has at most 255 bytes in front
-- of its terminator, and the tag is one of those that have a case.
abbrev pub IsSent : Payload → Type 0
IsSent (test_packet_1 data1 data2) = InWidth mod32 data1 × InWidth mod8 data2
IsSent (test_packet_2 data1 data2) = InWidth mod32 data1 × InWidth mod16 data2
IsSent (handshake client_id) = InWidth mod32 client_id
IsSent (plain_text text) = length text ≤ 255
IsSent disconnected = Unit
IsSent connected = Unit
IsSent (ball b) = IsBallSent b
IsSent (state s) = IsStateSent s
IsSent (event ev) = IsEventSent ev
IsSent (unknown tag) = ⊥
