-- ===== src/Terminal/Runs.antt =====
-- The terminal client of src/client.c at concrete words.
use sasd_protocols.Prelude.{ℕ, List, [], ◌∷◌, pos, true}
use sasd_protocols.Buffer.Types.{Allocator, Realloc}
use sasd_protocols.Packets.Deserialize.{Memory}
use sasd_protocols.Terminal.{Unassigned, state_word, ball_word}

abbrev plenty : Allocator
plenty = record { malloc = λ n. true; realloc = λ n. Realloc.same }

abbrev memory : Memory
memory = record { sender_id = pos 7; death_count = pos 5 }

abbrev unassigned : Unassigned
unassigned = record { paused = pos 1; death_count = pos 2; lie = pos 3 }

abbrev words : List (List ℕ)
words = (b'h' ∷ b'i' ∷ []) ∷ state_word ∷ ball_word ∷ []
