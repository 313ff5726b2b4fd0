-- ===== src/Rollback/Main/Laws.antt =====
-- Whole games of src/game_timewarp.c and src/game_fasteventordering.c.
use mathlib.Core.Option.{some-injective}
use mathlib.Core.Path.{subst}
use sasd_protocols.Prelude.{
  ℕ, suc, ◌+◌, ◌^◌, ◌≤◌, ◌<◌, ◌≡◌, refl, sym, ap, ◌∙◌, List, [], ◌∷◌, length, ℤ, pos, Option, none,
  some, ◌>>=◌, All, Returns, Bool, Bool-cases, true, false, if◌then◌else◌, inl, inr, arith,
}
use sasd_protocols.Buffer.Types.{Allocator}
use sasd_protocols.Balls.Types.{State, Event, IsEvent, IsWellFormed}
use sasd_protocols.Balls.Advance.Same.{SameEvents}
use sasd_protocols.Balls.Sorting.{IsQsort}
use sasd_protocols.Rollback.Cells.Laws.{GrowsInPlace, events_at}
use sasd_protocols.Rollback.Replay.{replay, replay-SameEvents}
use sasd_protocols.Rollback.Keys.{Input, quit, key, ignored, still_running}
use sasd_protocols.Rollback.Loop.{Game, Protocol, own_event, round}
use sasd_protocols.Rollback.Loop.Start.{start-IsRound}
use sasd_protocols.Rollback.Main.{Turn, client_id, rounds, aborted, played, play, join, main}
use sasd_protocols.Packets.Types.{Packet, Payload, handshake}
use sasd_protocols.Rollback.Loop.Arrivals.{IsReceived}
use sasd_protocols.Rollback.Loop.Synchronize.{IsCells-events}
use sasd_protocols.Rollback.Loop.Turns.{IsProtocol}
use sasd_protocols.Rollback.Loop.Round.{IsRound, round-IsRound}

-- Is the window closed in a frame?
abbrev pub closes : List Input → Bool
closes [] = false
closes (quit ∷ is) = true
closes (key pressed k ∷ is) = closes is
closes (ignored ∷ is) = closes is

-- The number of frames up to the one in which the window is closed, or of all.
abbrev pub frames_played : List Turn → ℕ
frames_played [] = 0
frames_played (turn ∷ turns) =
    let rest = frames_played turns in if closes turn.0 then 1 else suc rest

stays_closed : (is : List Input) → still_running false is ≡ false
unfolding still_running
stays_closed [] = refl
stays_closed (quit ∷ is) = stays_closed is
stays_closed (key pressed k ∷ is) = stays_closed is
stays_closed (ignored ∷ is) = stays_closed is

pub runs_until_closed :
    (is : List Input) → still_running true is ≡ (if closes is then false else true)
unfolding still_running
runs_until_closed [] = refl
runs_until_closed (quit ∷ is) = stays_closed is
runs_until_closed (key pressed k ∷ is) = runs_until_closed is
runs_until_closed (ignored ∷ is) = runs_until_closed is

module _ (heap : Allocator) (grows : GrowsInPlace heap)
    {qsort : (Event → Event → ℤ) → List Event → List Event} (q : IsQsort qsort) (s0 : State)
    (p : Protocol) (lag : ℕ) (v : IsProtocol p lag) where
  -- When the window has been closed, no further round is played.
  rounds-stopped :
      (turns : List Turn) (g : Game)
      → g.running ≡ false
      → rounds heap qsort p turns g ≡ some ([], g)
  unfolding rounds
  rounds-stopped [] g e = refl
  rounds-stopped ((inputs, packets) ∷ turns) g e = rw e refl

  rounds-step :
      (inputs : List Input) (packets : List Packet) (turns : List Turn) (g : Game)
      (out : List Event × Game) (r : List (List Event) × Game)
      → g.running ≡ true
      → round heap qsort p inputs packets g ≡ some out
      → rounds heap qsort p turns out.1 ≡ some r
      → rounds heap qsort p ((inputs, packets) ∷ turns) g ≡ some (out.0 ∷ r.0, r.1)
  unfolding rounds
  rounds-step inputs packets turns g out r on e f =
      ap
        (λ b.
          if b
          then (round heap qsort p inputs packets g >>= λ x.
              rounds heap qsort p turns x.1 >>= λ l. some (x.0 ∷ l.0, l.1))
          else some ([], g))
        on
      ∙ ap (λ o. o >>= λ x. rounds heap qsort p turns x.1 >>= λ l. some (x.0 ∷ l.0, l.1)) e
      ∙ ap (λ o. o >>= λ l. some (out.0 ∷ l.0, l.1)) f

  -- The rounds up to the end of the program keep the past of the game that of a replay.
  pub rounds-IsRound :
      (turns : List Turn) (g : Game) (n : ℕ)
      → n + length turns < 2 ^ 29
      → All (λ turn. All (IsReceived p) turn.1) turns
      → g.running ≡ true
      → IsRound qsort s0 g n
      → Returns (λ r. IsRound qsort s0 r.1 (n + frames_played turns)) (rounds heap qsort p turns g)
  unfolding rounds
  rounds-IsRound [] g n small rs on w = (([], g), refl, subst (IsRound _ s0 g) (omega arith) w)
  rounds-IsRound ((inputs, packets) ∷ turns) g n small (r, rs) on w =
      let (out, e, d) =
        round-IsRound heap grows q s0 p lag v n (omega arith) inputs packets g r w in
      let now : out.1.running ≡ (if closes inputs then false else true) =
        d.running ∙ ap (λ b. still_running b inputs) on ∙ runs_until_closed inputs in
      elim (Bool-cases (closes inputs)) [
        | inl c ↦
            let off : out.1.running ≡ false = now ∙ ap (λ b. if b then false else true) c in
            rw c (
              (out.0 ∷ [], out.1),
              rounds-step inputs packets turns g out ([], out.1) on e
                  (rounds-stopped turns out.1 off),
              subst (IsRound _ s0 out.1) (omega arith) d.next,
            )
        | inr c ↦
            let still : out.1.running ≡ true = now ∙ ap (λ b. if b then false else true) c in
            let (out', e', w') = rounds-IsRound turns out.1 (suc n) (omega arith) rs still d.next in
            rw c (
              (out.0 ∷ out'.0, out'.1),
              rounds-step inputs packets turns g out out' on e e',
              subst (IsRound _ s0 out'.1) (omega arith) w',
            )
      ]

  play-IsRound :
      (state_size : ℕ) (turns : List Turn)
      → IsWellFormed s0
      → state_size ≤ 2 ^ 20
      → length turns < 2 ^ 29
      → All (λ turn. All (IsReceived p) turn.1) turns
      → (g : Game) × (sent : List (List Event)) × (play heap qsort state_size s0 turns p
          ≡ some (played (own_event p (pos 1)) sent g))
        × IsRound qsort s0 g (frames_played turns)
  unfolding play
  play-IsRound state_size turns w size few rs =
      let (out, e, (c, d, on, _)) = start-IsRound heap grows p lag state_size s0 v size w in
      let (out', e', d') = rounds-IsRound turns out.1 0 (omega arith) rs on d in
      rw (e, e', c) (out'.1, out'.0, refl, subst (IsRound _ s0 out'.1) (omega arith) d')

-- What the game shows is what a replay of the events of the trace gives.
pub shown_state :
    (qsort : (Event → Event → ℤ) → List Event → List Event) (s0 : State) (g : Game) (n : ℕ)
    → IsRound qsort s0 g n
    → replay qsort s0 (events_at g.event_trace) n ≡ some g.stat
shown_state qsort s0 g n w = let (s, at, of, _) = w.past n (omega arith) in of ∙ sym at ∙ w.shown

-- Two clients that start from one state and know, for each frame so far, the same events show the
-- same state: in whatever order and at whatever time each of them learned of the events, whether or
-- not one has some of them twice, as it has the connect events of others, and whatever routine
-- sorts them.
pub SameEvents-same_state :
    {qsort qsort' : (Event → Event → ℤ) → List Event → List Event} (s0 : State) (g g' : Game)
    (n : ℕ)
    → IsQsort qsort
    → IsQsort qsort'
    → IsRound qsort s0 g n
    → IsRound qsort' s0 g' n
    → ((k : ℕ) → k ≤ n → SameEvents (events_at g.event_trace k) (events_at g'.event_trace k))
    → g.stat ≡ g'.stat
SameEvents-same_state {qsort} {qsort'} s0 g g' n q q' w w' p =
    let same =
      sym (shown_state qsort s0 g n w)
      ∙ replay-SameEvents s0 (events_at g.event_trace) (events_at g'.event_trace) q q'
          (IsCells-events IsEvent g.event_trace w.game.cells) n p
      ∙ shown_state qsort' s0 g' n w' in
    some-injective _ _ same

-- A first packet that is no handshake ends the program. With a handshake of a player's number, and
-- a protocol of this player, every sequence of inputs and valid packets can be played up to the
-- frame in which the window is closed, and the past of the game is that of a replay of the events
-- that are known: no state is left that an event should have changed.
pub main-IsRound :
    (heap : Allocator)
    → GrowsInPlace heap
    → {qsort : (Event → Event → ℤ) → List Event → List Event} → IsQsort qsort
    → (protocol_of : ℤ → Option Protocol) (state_size : ℕ) (s0 : State) (turns : List Turn)
    → IsWellFormed s0
    → state_size ≤ 2 ^ 20
    → length turns < 2 ^ 29
    → ((first : Payload)
        → client_id first ≡ none
        → main heap qsort state_size s0 turns protocol_of first ≡ some aborted)
      × ((player : ℤ) (p : Protocol) (lag : ℕ)
          → protocol_of player ≡ some p
          → IsProtocol p lag
          → All (λ turn. All (IsReceived p) turn.1) turns
          → (g : Game) × (sent : List (List Event)) × (main heap qsort state_size s0 turns
                protocol_of
                (handshake player)
              ≡ some (played (own_event p (pos 1)) sent g))
            × IsRound qsort s0 g (frames_played turns))
unfolding main join client_id
main-IsRound heap grows {qsort} q protocol_of state_size s0 turns w size few = (
  (λ first e. ap (join heap qsort state_size s0 turns protocol_of) e),
  λ player p lag e v rs.
      let (g, sent, e', d) = play-IsRound heap grows q s0 p lag v state_size turns w size few rs in
      (g, sent, ap (λ o. o >>= play heap qsort state_size s0 turns) e ∙ e', d),
)
