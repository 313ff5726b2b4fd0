-- ===== src/Terminal/Relayed.antt =====
-- What is typed at one terminal of src/client.c is printed at another.
use sasd_protocols.Prelude.{ℕ, ◌+◌, ◌≤◌, ◌≡◌, List, [], ◌∷◌, length, map, false, ℤ, pos}
use sasd_protocols.Packets.Types.{Payload, Packet}
use sasd_protocols.Packets.Deserialize.{Memory}
use sasd_protocols.Packets.Deserialize.RoundTrip.{received}
use sasd_protocols.Packets.Layout.{packet_size}
use sasd_protocols.Packets.Print.{int, print_packet}
use sasd_protocols.Packets.Print.Values.{values, field_values}
use sasd_protocols.Terminal.{
  Unassigned, Shown, prompt, same_word, quit_word, retrieve_word, payload_for,
}

-- A word that fits the array, and that is none of the two commands that send nothing.
pub record IsToSend (word : List ℕ) : Type 0 where
  pub fits : length word ≤ 255
  pub not_quit : same_word word quit_word ≡ false
  pub not_retrieve : same_word word retrieve_word ≡ false

-- The packet as the other client has it: its size counts the sender's number.
abbrev pub received_packet : Memory → ℤ → Payload → Packet
received_packet memory id p = record {
  size = pos (packet_size p + 4);
  sender_id = id;
  payload = received memory p;
}

-- The prompt stands in front of each thing that is shown, and at the end.
abbrev pub prompted : List Shown → List Shown
prompted [] = prompt ∷ []
prompted (o ∷ os) = prompt ∷ o ∷ prompted os

-- What is printed of a packet, without the texts: the size that counts the sender's number, the
-- sender, and the fields of the payload.
abbrev pub PrintsFields : Memory → ℤ → Payload → Type 0
PrintsFields memory id p =
    values (print_packet (received_packet memory id p))
    ≡ int (pos (packet_size p + 4)) ∷ int id ∷ field_values id p

-- The payloads of the words.
abbrev pub typed : Unassigned → ℤ → List (List ℕ) → List Payload
typed u id words = map (payload_for u id) words
