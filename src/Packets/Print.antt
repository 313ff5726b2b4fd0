-- ===== src/Packets/Print.antt =====
-- `send_packet` and `print_packet` of src/packets.c.
pub mod Values
use Prim.Native.String.{String}
use sasd_protocols.Prelude.{
  ℕ, ℤ, pos, eqb_ℤ, List, [], ◌∷◌, ◌++◌, Option, some, ◌>>=◌, if◌then◌else◌,
}
use sasd_protocols.Buffer.Types.{Allocator}
use sasd_protocols.Buffer.Push.{pushed}
use sasd_protocols.Balls.Types.{Ball, State, Event}
use sasd_protocols.Packets.Types.{
  Payload, Packet, test_packet_1, test_packet_2, handshake, plain_text, disconnected, connected,
  ball, state, event, unknown,
}
use sasd_protocols.Packets.Serialize.{packet_serialize}

-- The bytes that are given to `send`. `packet_serialize` gives no buffer for an unknown type.
unfoldable pub send_packet : Allocator → Payload → Option (List ℕ)
send_packet heap p = packet_serialize heap p >>= λ h. some (pushed h)

-- What `printf` is given: a text, or an argument for `%d`, `%c` or `%s`.
pub data Piece : Type 0 where
  text : String → Piece
  int char : ℤ → Piece
  string : List ℕ → Piece

-- A line `\tname = %d\n`.
field : String → ℤ → List Piece
field name z = text "\t" ∷ text name ∷ text " = " ∷ int z ∷ text "\n" ∷ []

-- The line with the name of the packet, and those that all packets have.
opening : String → ℤ → ℤ → List Piece
opening name size sender_id =
    text name ∷ text " {\n" ∷ (field "size" size ++ field "sender_id" sender_id)

-- The elements of an array, with `, ` behind each but the last.
separated : {A : Type 0} → (A → List Piece) → List A → List Piece
separated f [] = []
separated f (x ∷ []) = f x
separated f (x ∷ y ∷ ys) = f x ++ (text ", " ∷ separated f (y ∷ ys))

print_ball : ℤ → ℤ → Ball → List Piece
print_ball size sender_id b =
    opening "ball" size sender_id
    ++ field "p_x" b.p_x
    ++ field "p_y" b.p_y
    ++ field "v_x" b.v_x
    ++ field "v_y" b.v_y
    ++ field "player" b.player
    ++ (text "\tbutton_states = [" ∷ separated (λ c. char c ∷ []) b.button_states)
    ++ (text "]\n}\n" ∷ [])

-- The balls are printed as packets of size 0 of the same sender.
print_state : ℤ → ℤ → State → List Piece
print_state size sender_id s =
    opening "state" size sender_id
    ++ field "frame" s.frame
    ++ (text "\tscores = [" ∷ separated (λ z. int z ∷ []) s.scores)
    ++ (text "]\n" ∷ text "\tballs = [" ∷ separated (print_ball (pos 0) sender_id) s.balls)
    ++ (text "]\n}\n" ∷ [])

print_event : ℤ → ℤ → Event → List Piece
print_event size sender_id e =
    opening "event" size sender_id
    ++ field "frame" e.frame
    ++ field "summon_frame" e.summon_frame
    ++ field "player" e.player
    ++ field "button" e.button
    ++ field "pressed" e.pressed
    ++ (text "}\n" ∷ [])

print_payload : ℤ → ℤ → Payload → List Piece
print_payload size sender_id (test_packet_1 data1 data2) =
    opening "test_packet_1" size sender_id
    ++ field "data1" data1
    ++ (text "\tdata2 = " ∷ char data2 ∷ text "\n}\n" ∷ [])
print_payload size sender_id (test_packet_2 data1 data2) =
    opening "test_packet_2" size sender_id
    ++ field "data1" data1
    ++ field "data2" data2
    ++ (text "}\n" ∷ [])
print_payload size sender_id (handshake client_id) =
    opening "handshake" size sender_id ++ field "client_id" client_id ++ (text "}\n" ∷ [])
print_payload size sender_id (plain_text xs) =
    opening "plain_text" size sender_id ++ (text "\ttext = " ∷ string xs ∷ text "\n}\n" ∷ [])
print_payload size sender_id disconnected =
    opening "disconnected" size sender_id ++ (text "}\n" ∷ [])
print_payload size sender_id connected = opening "connected" size sender_id ++ (text "}\n" ∷ [])
print_payload size sender_id (ball b) = print_ball size sender_id b
print_payload size sender_id (state s) = print_state size sender_id s
print_payload size sender_id (event e) = print_event size sender_id e
print_payload size sender_id (unknown tag) =
    (if eqb_ℤ tag (pos b'-') then text "NONE\n" else text "UNKNOWN\n") ∷ []

pub print_packet : Packet → List Piece
print_packet p = print_payload p.size p.sender_id p.payload
