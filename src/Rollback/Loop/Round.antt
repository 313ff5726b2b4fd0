-- ===== src/Rollback/Loop/Round.antt =====
-- A round of the loop in src/game_timewarp.c and src/game_fasteventordering.c keeps the past of the
-- game that of a replay, whatever events come late.
use mathlib.Core.List.{Perm}
use mathlib.Core.Path.{subst}
use sasd_protocols.Prelude.{
  ℕ, suc, ◌+◌, ◌^◌, ◌≤◌, ◌<◌, ◌≡◌, refl, sym, ap, ◌∙◌, List, [], ◌++◌, append-nil, ℤ, pos, ◌+ℤ◌,
  ◌-ℤ◌, some, ne→==_false, All, Returns, arith,
}
use sasd_protocols.Buffer.Types.{Allocator}
use sasd_protocols.Balls.Types.{State, Event}
use sasd_protocols.Balls.Collide.{i32}
use sasd_protocols.Balls.Sorting.{IsQsort}
use sasd_protocols.Packets.Types.{Packet}
use sasd_protocols.Vec.Slots.Laws.{element}
use sasd_protocols.Rollback.Cells.Laws.{GrowsInPlace, events_at, IsCells}
use sasd_protocols.Rollback.Keys.{Input, key_events, still_running}
use sasd_protocols.Rollback.Replay.{replay_same}
use sasd_protocols.Rollback.Loop.{
  Game, Protocol, own_event, of_player, synchronize, rounds_from, next_round, round,
}
use sasd_protocols.Rollback.Loop.Sorted.{IsStates, i32-suc}
use sasd_protocols.Rollback.Loop.Events.{IsTimed, at_frame}
use sasd_protocols.Rollback.Loop.Arrivals.{IsReceived, arrivals}
use sasd_protocols.Rollback.Loop.Synchronize.{IsGame, IsReplayed, synchronize-Returns}
use sasd_protocols.Rollback.Loop.Turns.{
  IsProtocol, own_at, OwnTurn, own_turn_lem, OthersTurn, others_turn_lem,
}

-- A game between two rounds, frame `n + 1` being the next one: all its past is that of a replay of
-- the events that it knows, and it shows the last state.
pub record IsRound (qsort : (Event → Event → ℤ) → List Event → List Event) (s0 : State) (g : Game)
    (n : ℕ) : Type 0 where
  pub frame : g.frame ≡ pos (suc n)
  pub min_frame : g.min_frame ≡ pos (suc n)
  pub game : IsGame g
  pub buffer : IsCells IsTimed g.event_buffer
  pub past : (j : ℕ) → j ≤ n → IsReplayed qsort s0 g j
  pub shown : element g.state_trace n ≡ some g.stat

rounds_lem :
    (behind late n : ℕ)
    → behind + late ≡ n
    → rounds_from (pos (suc behind)) (pos (suc n)) ≡ suc late
unfolding rounds_from ◌+ℤ◌ ◌-ℤ◌
rounds_lem behind late n e = ground arith

-- What a round leaves: a game in order, one frame on, that knows the new events; and what it sent.
pub record RoundDone (qsort : (Event → Event → ℤ) → List Event → List Event) (s0 : State)
    (p : Protocol) (lag n : ℕ) (inputs : List Input) (packets : List Packet) (g : Game)
    (r : List Event × Game) : Type 0 where
  pub next : IsRound qsort s0 r.1 (suc n)
  pub running : r.1.running ≡ still_running g.running inputs
  pub sent :
      r.0
      ≡ of_player p.player
          (events_at g.event_trace (suc n + lag) ++ key_events (own_event p (pos (suc n))) inputs)
  pub waiting :
      (k : ℕ)
      → events_at r.1.event_buffer k
        ≡ events_at g.event_buffer k ++ arrivals p (pos (suc n)) k packets
  pub known :
      (k : ℕ)
      → Perm (events_at r.1.event_trace k) (
          (events_at g.event_trace k ++ own_at p lag (suc n) inputs k)
          ++ at_frame k (events_at r.1.event_buffer (suc n)))

module _ (heap : Allocator) (grows : GrowsInPlace heap)
    {qsort : (Event → Event → ℤ) → List Event → List Event} (q : IsQsort qsort) (s0 : State)
    (p : Protocol) (lag : ℕ) (v : IsProtocol p lag) (n : ℕ) (small : n < 2 ^ 29) where
  known_after :
      (inputs : List Input) (packets : List Packet) (g g2 : Game) (r : List Event × Game)
      → OwnTurn heap grows q s0 p lag v n small inputs g r
      → OthersTurn heap grows q s0 p lag v n small packets r.1 g2
      → (k : ℕ)
      → events_at g2.event_trace k
        ≡ (events_at g.event_trace k ++ own_at p lag (suc n) inputs k)
          ++ at_frame k (events_at g2.event_buffer (suc n))
  known_after inputs packets g g2 r a b k =
      b.events k ∙ ap (λ l. l ++ at_frame k (events_at g2.event_buffer (suc n))) (a.events k)

  -- In front of the earliest new event, the past is still that of a replay.
  past_after :
      (inputs : List Input) (packets : List Packet) (g g2 : Game) (r : List Event × Game)
      → IsRound qsort s0 g n
      → OwnTurn heap grows q s0 p lag v n small inputs g r
      → (b : OthersTurn heap grows q s0 p lag v n small packets r.1 g2) → (j : ℕ) → j ≤ b.behind
      → IsReplayed qsort s0 g2 j
  past_after inputs packets g g2 r w a b j le =
      let (s, at_j, of_j, well_formed) = w.past j (omega (arith, b.adds_up)) in
      (
        s,
        ap (λ t. element t j) b.same_states ∙ a.states j (omega (arith, b.adds_up)) ∙ at_j,
        replay_same qsort s0 (events_at g2.event_trace) (events_at g.event_trace) j
              (λ k le'. same k (omega arith))
            ∙ of_j,
        well_formed,
      )
    where
      same : (k : ℕ) → k ≤ b.behind → events_at g2.event_trace k ≡ events_at g.event_trace k
      same k le' =
          known_after inputs packets g g2 r a b k
          ∙ rw
              (
                b.none_before k le',
                ne→==_false k (suc n + lag) (λ e. absurd (omega (arith, b.adds_up))),
              )
              (append-nil (events_at g.event_trace k ++ [])
                ∙ append-nil (events_at g.event_trace k))

  rounds_after :
      (packets : List Packet) (g1 g2 : Game)
      (b : OthersTurn heap grows q s0 p lag v n small packets g1 g2)
      → g1.frame ≡ pos (suc n)
      → rounds_from g2.min_frame g2.frame ≡ suc b.late
  rounds_after packets g1 g2 b e =
      ap (λ z. rounds_from z g2.frame) b.min_frame
      ∙ ap (rounds_from (pos (suc b.behind))) (b.same_frame ∙ e)
      ∙ rounds_lem b.behind b.late n b.adds_up

  frame_after : (g3 : Game) → g3.frame ≡ pos (suc n) → i32 (g3.frame +ℤ pos 1) ≡ pos (suc (suc n))
  frame_after g3 e = ap (λ z. i32 (z +ℤ pos 1)) e ∙ i32-suc (suc n) (omega arith)

  -- What the loop "Synchronize" makes of the game, and the end of the round.
  finish :
      (inputs : List Input) (packets : List Packet) (g g2 : Game) (r : List Event × Game)
      → IsRound qsort s0 g n
      → OwnTurn heap grows q s0 p lag v n small inputs g r
      → OthersTurn heap grows q s0 p lag v n small packets r.1 g2
      → (g3 : Game) × (synchronize heap qsort (rounds_from g2.min_frame g2.frame) g2.min_frame g2
          ≡ some g3)
        × RoundDone qsort s0 p lag n inputs packets g (r.0, next_round heap qsort p g3)
  unfolding next_round
  finish inputs packets g g2 r w a b =
      let game2 : IsGame g2 = record {
        states = subst IsStates (sym b.same_states) a.game.states;
        cells = b.cells;
      } in
      let (g3, synced, (game3, kept, past3, shown3)) =
        synchronize-Returns heap grows q s0 b.late g2 b.behind game2 (omega (arith, b.adds_up))
          (past_after inputs packets g g2 r w a b) in
      let frame3 : g3.frame ≡ pos (suc n) =
        kept.same_frame ∙ b.same_frame ∙ a.same_frame ∙ w.frame in
      let last : suc b.behind + b.late ≡ suc n = omega (arith, b.adds_up) in
      (
        g3,
        ap (λ k. synchronize heap qsort k g2.min_frame g2)
              (rounds_after packets r.1 g2 b (a.same_frame ∙ w.frame))
            ∙ ap (λ z. synchronize heap qsort (suc b.late) z g2) b.min_frame
            ∙ synced,
        record {
          next = record {
            frame = frame_after g3 frame3;
            min_frame = frame_after g3 frame3;
            game = record { states = game3.states; cells = game3.cells };
            buffer = subst (IsCells IsTimed) (sym kept.same_buffer) b.buffer;
            past = λ j le. past3 j (omega arith);
            shown = subst (λ m. element g3.state_trace m ≡ some g3.stat) last shown3;
          };
          running = kept.same_running ∙ b.same_running ∙ a.running;
          sent = a.sent;
          waiting = λ k.
              ap (λ t. events_at t k) kept.same_buffer
              ∙ b.waiting k
              ∙ ap (λ t. events_at t k ++ arrivals p (pos (suc n)) k packets) a.same_buffer;
          known = λ k.
              subst
                (λ l. Perm (events_at g3.event_trace k) (
                  (events_at g.event_trace k ++ own_at p lag (suc n) inputs k)
                  ++ at_frame k (events_at l (suc n))))
                (sym kept.same_buffer)
                (subst (Perm (events_at g3.event_trace k)) (known_after inputs packets g g2 r a b k)
                  (kept.events k));
        },
      )

  -- A round that starts from a game whose past is that of a replay of the events that it knows ends
  -- in such a game, one frame on, also if events come late and states have to be computed again.
  -- It knows the own events of the frame and those of the buffer that were due, and it has sent the
  -- own ones. Memory does not run out and blocks of events grow in place; the protocol is one of a
  -- player of the game, and the events that are received are valid, for frames of the game.
  pub round-IsRound :
      (inputs : List Input) (packets : List Packet) (g : Game)
      → All (IsReceived p) packets
      → IsRound qsort s0 g n
      → Returns (RoundDone qsort s0 p lag n inputs packets g) (round heap qsort p inputs packets g)
  unfolding round
  round-IsRound inputs packets g rs w =
      let (r, own, a) = own_turn_lem heap grows q s0 p lag v n small inputs g w.game w.frame in
      let (g2, others, b) =
        others_turn_lem heap grows q s0 p lag v n small packets r.1 a.game
          (subst (IsCells IsTimed) (sym a.same_buffer) w.buffer) rs (a.same_frame ∙ w.frame)
          (a.same_min ∙ w.min_frame) in
      let (g3, synced, d) = finish inputs packets g g2 r w a b in
      rw (own, others, synced) ((r.0, next_round heap qsort p g3), refl, d)
