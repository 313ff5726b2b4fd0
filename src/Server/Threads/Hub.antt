-- ===== src/Server/Threads/Hub.antt =====
-- What src/server.c promises about the packets that the clients send: an abstract hub, which keeps
-- what every client has sent and what every client was told, as lists and not as bytes.
pub mod Repeats
pub mod Boxes
pub mod Delivery
pub mod Sound
use sasd_protocols.Prelude.{
  ℕ, suc, ◌<◌, ◌≡◌, List, [], ◌∷◌, ◌++◌, map, Option, none, some, if◌then◌else◌, Bool, true, false,
  ℤ, pos, eqb_ℤ,
}

-- The bytes of a packet, as its client sent them.
abbrev pub PacketBytes : Type 0
PacketBytes = List ℕ

-- What one client is told about another.
pub data Note : Type 0 where
  arrived : Note
  departed : Note
  passed : PacketBytes → Note

-- `given` is how many numbers were given, `log` what a client has sent, `pending` a packet that is
-- in the log and not yet passed on, `box` what a client was told and by whom. For a number that no
-- member has, `log`, `pending` and `box` mean nothing.
pub record Hub : Type 0 where
  pub given : ℕ
  pub members : List ℤ
  pub log : ℤ → List PacketBytes
  pub pending : ℤ → Option PacketBytes
  pub box : ℤ → List (ℤ × Note)

-- A function changed at one number.
unfoldable pub put : {A : Type 0} → ℤ → A → (ℤ → A) → ℤ → A
put k a f i = if eqb_ℤ i k then a else f i

-- All but `c` itself are told.
pub tell : ℤ → Note → (ℤ → List (ℤ × Note)) → ℤ → List (ℤ × Note)
tell c note box d = if eqb_ℤ d c then box d else box d ++ ((c, note) ∷ [])

abbrev pub from_member : ℤ → List PacketBytes → List (ℤ × Note)
from_member m log = (m, arrived) ∷ map (λ xs. (m, passed xs)) log

-- What a new member is told: that each member is there, and all that it has sent.
unfoldable pub introductions : List ℤ → (ℤ → List PacketBytes) → List (ℤ × Note)
introductions [] log = []
introductions (m ∷ ms) log = from_member m (log m) ++ introductions ms log

abbrev pub empty_hub : Hub
empty_hub = record { given = 0; members = []; log = λ c. []; pending = λ c. none; box = λ c. [] }

-- A number that was given.
abbrev pub IsGiven : ℕ → ℤ → Type 0
IsGiven given c = (n : ℕ) × (c ≡ pos n) × (n < given)

-- The hub with a new member.
abbrev pub joined : Hub → Hub
joined s = record {
  given = suc s.given;
  members = pos s.given ∷ s.members;
  log = put (pos s.given) [] s.log;
  pending = put (pos s.given) none s.pending;
  box = put (pos s.given) (introductions s.members s.log) s.box;
}

pub data HubStep (s t : Hub) : Type 0 where
  join : t ≡ joined s → HubStep s t
  arrive : (c : ℤ) → t ≡ record s { box = tell c arrived s.box } → HubStep s t
  depart : (c : ℤ) → t ≡ record s { box = tell c departed s.box } → HubStep s t
  keep :
      (c : ℤ) (xs : PacketBytes)
      → s.pending c ≡ none
      → t
        ≡ record s { log = put c (s.log c ++ (xs ∷ [])) s.log; pending = put c (some xs) s.pending }
      → HubStep s t
  pass :
      (c : ℤ) (xs : PacketBytes)
      → IsGiven s.given c
      → s.pending c ≡ some xs
      → t ≡ record s { pending = put c none s.pending; box = tell c (passed xs) s.box }
      → HubStep s t
  part :
      (before after : List ℤ) (c : ℤ)
      → s.members ≡ before ++ (c ∷ after)
      → t ≡ record s { members = before ++ after }
      → HubStep s t

pub data HubReach : Hub → Type 0 where
  here : HubReach empty_hub
  next : {s t : Hub} → HubReach s → HubStep s t → HubReach t

-- The packets of one sender among what was told, in order.
pub from : ℤ → List (ℤ × Note) → List PacketBytes
from c [] = []
from c ((s, arrived) ∷ b) = from c b
from c ((s, departed) ∷ b) = from c b
from c ((s, passed xs) ∷ b) = let rest = from c b in if eqb_ℤ s c then xs ∷ rest else rest
