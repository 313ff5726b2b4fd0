-- ===== src/Packets/Tag.antt =====
-- The tags of `enum payload_type` in src/packets.h.
use sasd_protocols.Prelude.{ℤ, pos}

abbrev pub test_packet_1 : ℤ
test_packet_1 = pos b'a'

abbrev pub test_packet_2 : ℤ
test_packet_2 = pos b'2'

abbrev pub handshake : ℤ
handshake = pos b'h'

abbrev pub plain_text : ℤ
plain_text = pos b't'

abbrev pub disconnected : ℤ
disconnected = pos b'd'

abbrev pub connected : ℤ
connected = pos b'c'

abbrev pub ball : ℤ
ball = pos b'b'

abbrev pub state : ℤ
state = pos b's'

abbrev pub event : ℤ
event = pos b'e'
