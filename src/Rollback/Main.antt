-- ===== src/Rollback/Main.antt =====
-- `main` of src/game_timewarp.c and src/game_fasteventordering.c, from the handshake to the last
-- round.
pub mod Laws
use sasd_protocols.Prelude.{
  ℕ, List, [], ◌∷◌, ◌≡◌, refl, ℤ, Option, none, some, ◌>>=◌, if◌then◌else◌,
}
use sasd_protocols.Buffer.Types.{Allocator}
use sasd_protocols.Balls.Types.{State, Event}
use sasd_protocols.Packets.Types.{Packet, Payload, handshake}
use sasd_protocols.Rollback.Keys.{Input}
use sasd_protocols.Rollback.Loop.{Game, Protocol, start, round}

-- The client's number: the first packet has to be a handshake.
unfoldable pub client_id : Payload → Option ℤ
client_id (handshake id) = some id
client_id _ = none

-- What is reported by SDL, and what is received, in one frame.
abbrev pub Turn : Type 0
Turn = List Input × List Packet

-- "Protocol error. Aborting.", or what was sent and the game that was played.
pub data Outcome : Type 0 where
  aborted : Outcome
  played : Event → List (List Event) → Game → Outcome

module _ (heap : Allocator) (qsort : (Event → Event → ℤ) → List Event → List Event) where
  -- `while (game_state.running)`, for as many rounds as there are turns at most; which events were
  -- sent is kept, frame by frame.
  pub rounds : Protocol → List Turn → Game → Option (List (List Event) × Game)
  rounds p [] g = some ([], g)
  rounds p ((inputs, packets) ∷ turns) g =
      let body = round heap qsort p inputs packets g >>= λ (sent, g').
      rounds p turns g' >>= λ (later, g''). some (sent ∷ later, g'') in
      if g.running then body else some ([], g)

  pub play : ℕ → State → List Turn → Protocol → Option Outcome
  play state_size stat turns p = start heap qsort p state_size stat >>= λ (connect, g).
      rounds p turns g >>= λ (sent, g'). some (played connect sent g')

  -- `protocol_of` is `none` where a table is read out of range.
  pub join : ℕ → State → List Turn → (ℤ → Option Protocol) → Option ℤ → Option Outcome
  join state_size stat turns protocol_of none = some aborted
  join state_size stat turns protocol_of (some player) =
      protocol_of player >>= play state_size stat turns

  pub main : ℕ → State → List Turn → (ℤ → Option Protocol) → Payload → Option Outcome
  main state_size stat turns protocol_of first =
      join state_size stat turns protocol_of (client_id first)
