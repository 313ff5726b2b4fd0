-- ===== src/Packets/Deserialize/RoundTrip.antt =====
-- `packet_deserialize` reads back what `packet_serialize` wrote.
use sasd_protocols.Prelude.{ℕ, ◌≡◌, List, [], ◌∷◌, length, All, arith, ℤ}
use sasd_protocols.Prelude.Word.{InWidth, mod8, mod32}
use sasd_protocols.Balls.Types.{Ball, State, Event, n_buttons, n_balls, max_players}
use sasd_protocols.Buffer.Push.{char_bytes, int32_bytes}
use sasd_protocols.Buffer.Pop.{Reader, pop_char, pop_int32}
use sasd_protocols.Buffer.Pop.Reads.{
  Reads, Reads-bind, Reads-last, pure-Reads, pop_char-Reads, pop_int16-Reads, pop_int32-Reads,
  pop_string-Reads,
}
use sasd_protocols.Packets.Types.{
  Payload, test_packet_1, test_packet_2, handshake, plain_text, disconnected, connected, ball,
  state, event, unknown,
}
use sasd_protocols.Packets.Layout.{
  each, ball_bytes, state_bytes, event_bytes, payload_bytes, tag_of, IsBallSent, IsStateSent,
  IsEventSent, IsSent,
}
use sasd_protocols.Packets.Deserialize.{
  test_packet_1_deserialize, test_packet_2_deserialize, handshake_deserialize,
  plain_text_deserialize, pop_array, ball_deserialize, Memory, state_deserialize, event_deserialize,
  payload_deserialize,
}

pop_array-Reads :
    {A : Type 0} (m : Reader A) (f : A → List ℕ) (xs : List A)
    → All (λ x. Reads m (f x) x) xs
    → Reads (pop_array (length xs) m) (each f xs) xs
unfolding pop_array
pop_array-Reads m f [] h = pure-Reads []
pop_array-Reads m f (x ∷ xs) (h, hs) = Reads-bind _ h (Reads-last _ (pop_array-Reads m f xs hs))

chars-read : (cs : List ℤ) → All (InWidth mod8) cs → All (λ c. Reads pop_char (char_bytes c) c) cs
chars-read [] h = tt
chars-read (c ∷ cs) (h, hs) = (pop_char-Reads c h, chars-read cs hs)

int32s-read :
    (zs : List ℤ) → All (InWidth mod32) zs → All (λ z. Reads pop_int32 (int32_bytes z) z) zs
int32s-read [] h = tt
int32s-read (z ∷ zs) (h, hs) = (pop_int32-Reads z h, int32s-read zs hs)

array-Reads :
    {A : Type 0} (m : Reader A) (f : A → List ℕ) (n : ℕ) (xs : List A)
    → length xs ≡ n
    → All (λ x. Reads m (f x) x) xs
    → Reads (pop_array n m) (each f xs) xs
array-Reads m f n xs e h = rw (← e) (pop_array-Reads m f xs h)

ball-Reads : (b : Ball) → IsBallSent b → Reads ball_deserialize (ball_bytes b) b
unfolding ball_deserialize ball_bytes
ball-Reads b v = Reads-bind _ (pop_int32-Reads b.p_x v.p_x) (
    Reads-bind _ (pop_int32-Reads b.p_y v.p_y) (
      Reads-bind _ (pop_int32-Reads b.v_x v.v_x) (
        Reads-bind _ (pop_int32-Reads b.v_y v.v_y) (
          Reads-bind _ (pop_int32-Reads b.player v.player) (
            Reads-last _ (
              array-Reads pop_char char_bytes n_buttons b.button_states v.buttons_length
                (chars-read b.button_states v.buttons)))))))

balls-read :
    (bs : List Ball) → All IsBallSent bs → All (λ b. Reads ball_deserialize (ball_bytes b) b) bs
balls-read [] h = tt
balls-read (b ∷ bs) (h, hs) = (ball-Reads b h, balls-read bs hs)

-- All fields of a state but the death count.
state-Reads :
    (memory : Memory) (s : State)
    → IsStateSent s
    → Reads
        (state_deserialize memory)
        (state_bytes s)
        (record s { death_count = memory.death_count })
unfolding state_deserialize state_bytes
state-Reads memory s v = Reads-bind _ (pop_char-Reads s.paused v.paused) (
    Reads-bind _ (pop_int32-Reads s.frame v.frame) (
      Reads-bind _
        (array-Reads pop_int32 int32_bytes max_players s.scores v.scores_length
          (int32s-read s.scores v.scores))
        (Reads-bind _
          (array-Reads ball_deserialize ball_bytes n_balls s.balls v.balls_length
            (balls-read s.balls v.balls))
          (Reads-last _ (pop_int32-Reads s.lie v.lie)))))

event-Reads : (ev : Event) → IsEventSent ev → Reads event_deserialize (event_bytes ev) ev
unfolding event_deserialize event_bytes
event-Reads ev v = Reads-bind _ (pop_int32-Reads ev.frame v.frame) (
    Reads-bind _ (pop_int32-Reads ev.summon_frame v.summon_frame) (
      Reads-bind _ (pop_int32-Reads ev.player v.player) (
        Reads-bind _ (pop_char-Reads ev.button v.button)
          (Reads-last _ (pop_char-Reads ev.pressed v.pressed)))))

-- What arrives of a payload: a state takes the death count that the receiver's memory held.
abbrev pub received : Memory → Payload → Payload
received memory (state s) = state (record s { death_count = memory.death_count })
received memory (test_packet_1 data1 data2) = test_packet_1 data1 data2
received memory (test_packet_2 data1 data2) = test_packet_2 data1 data2
received memory (handshake client_id) = handshake client_id
received memory (plain_text text) = plain_text text
received memory disconnected = disconnected
received memory connected = connected
received memory (ball b) = ball b
received memory (event ev) = event ev
received memory (unknown tag) = unknown tag

pub payload-Reads :
    (memory : Memory) (p : Payload)
    → IsSent p
    → Reads (payload_deserialize memory (tag_of p)) (payload_bytes p) (received memory p)
unfolding payload_deserialize payload_bytes
payload-Reads memory (test_packet_1 data1 data2) v =
    unfold test_packet_1_deserialize in
    Reads-bind _ (pop_int32-Reads data1 v.0) (Reads-last _ (pop_char-Reads data2 v.1))
payload-Reads memory (test_packet_2 data1 data2) v =
    unfold test_packet_2_deserialize in
    Reads-bind _ (pop_int32-Reads data1 v.0) (Reads-last _ (pop_int16-Reads data2 v.1))
payload-Reads memory (handshake client_id) v =
    unfold handshake_deserialize in Reads-last _ (pop_int32-Reads client_id v)
payload-Reads memory (plain_text text) v =
    unfold plain_text_deserialize in
    Reads-last _ (pop_string-Reads 256 text (omega arith) (omega arith))
payload-Reads memory disconnected v = pure-Reads disconnected
payload-Reads memory connected v = pure-Reads connected
payload-Reads memory (ball b) v = Reads-last _ (ball-Reads b v)
payload-Reads memory (state s) v = Reads-last _ (state-Reads memory s v)
payload-Reads memory (event ev) v = Reads-last _ (event-Reads ev v)
payload-Reads memory (unknown tag) v = absurd v
