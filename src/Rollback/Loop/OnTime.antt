-- ===== src/Rollback/Loop/OnTime.antt =====
-- Rounds of the loop in src/game_timewarp.c and src/game_fasteventordering.c in which no event is
-- late.
use mathlib.Core.List.{Perm}
use mathlib.Core.Path.{subst}
use sasd_protocols.Prelude.{
  ℕ, suc, ◌+◌, ◌^◌, ◌≤◌, ◌<◌, ◌≡◌, inl, inr, refl, sym, ap, ◌∙◌, List, [], ◌∷◌, ◌++◌, append-nil, ℤ,
  pos, negsuc, ◌≤ℤ◌, eqb_ℤ, ne→==_false, some, All, Returns, false, arith,
}
use sasd_protocols.Buffer.Types.{Allocator}
use sasd_protocols.Balls.Types.{State, Event, IsEvent}
use sasd_protocols.Balls.Sorting.{IsQsort}
use sasd_protocols.Packets.Types.{
  Packet, Payload, test_packet_1, test_packet_2, handshake, plain_text, disconnected, connected,
  ball, state, event, unknown,
}
use sasd_protocols.Vec.Slots.{Slots}
use sasd_protocols.Vec.Slots.Laws.{element}
use sasd_protocols.Rollback.Cells.{Cell}
use sasd_protocols.Rollback.Cells.Laws.{GrowsInPlace, events_at, All-append}
use sasd_protocols.Rollback.Keys.{Input}
use sasd_protocols.Rollback.Replay.{replay-perm}
use sasd_protocols.Rollback.Loop.{Game, Protocol, entry, due, round}
use sasd_protocols.Rollback.Loop.Events.{at_frame, eqb_pos}
use sasd_protocols.Rollback.Loop.Arrivals.{IsReceived, due_lem, arrival, arrivals}
use sasd_protocols.Rollback.Loop.Synchronize.{IsCells-events}
use sasd_protocols.Rollback.Loop.Turns.{IsProtocol}
use sasd_protocols.Rollback.Loop.Round.{IsRound, RoundDone, round-IsRound}

-- An event that is received at frame `f` is not late: it is executed at frame `f` or afterwards, and
-- not before its simulated lag is over.
pub record IsTimely (p : Protocol) (f : ℕ) (ev : Event) : Type 0 where
  pub at : ℕ
  pub executed : p.executed ev ≡ some (pos at)
  pub in_time : f ≤ at
  pub lag : ℕ
  pub has_lag : entry p.lags p.player ev.player ≡ some (pos lag)
  pub lag_small : lag ≤ 2 ^ 20
  pub summoned : ℕ
  pub has_summoned : ev.summon_frame ≡ pos summoned
  pub summoned_small : summoned ≤ 2 ^ 29
  pub lag_over : summoned + lag ≤ at

abbrev pub IsTimelyPacket : Protocol → ℕ → Packet → Type 0
IsTimelyPacket p f packet = of_payload packet.payload
  where
    of_payload : Payload → Type 0
    of_payload (event ev) = IsTimely p f ev
    of_payload _ = Unit

-- What waits for frame `k` is not executed before it.
abbrev pub IsOnTime : Slots Cell → Type 0
IsOnTime s = (k : ℕ) → All (λ ev. pos k ≤ℤ ev.frame) (events_at s k)

arrival-IsTimely :
    (p : Protocol) (f k : ℕ) (ev : Event)
    → f < 2 ^ 30
    → IsTimely p f ev
    → All (λ ev. pos k ≤ℤ ev.frame) (arrival p (pos f) k (event ev))
arrival-IsTimely p f k ev small t =
    let (d, e, after, short, which) =
      due_lem f t.lag t.summoned small t.lag_small t.summoned_small in
    let due_at : due (pos f) (pos t.lag) ev.summon_frame ≡ pos d =
      ap (due (pos f) (pos t.lag)) t.has_summoned ∙ e in
    let before : d ≤ t.at = elim which [
      | inl q ↦ omega (arith, t.in_time)
      | inr q ↦ omega (arith, t.lag_over)
    ] in
    rw (t.executed, t.has_lag)
      (elim (eqb_pos d k) [
        | inl (same, yes_at) ↦ rw (ap (λ z. eqb_ℤ z (pos k)) due_at ∙ yes_at) (omega arith, tt)
        | inr (other, not_at) ↦ rw (ap (λ z. eqb_ℤ z (pos k)) due_at ∙ not_at) tt
      ])

payload-IsTimely :
    (p : Protocol) (f k : ℕ) (packet : Packet)
    → f < 2 ^ 30
    → IsTimelyPacket p f packet
    → All (λ ev. pos k ≤ℤ ev.frame) (arrival p (pos f) k packet.payload)
payload-IsTimely p f k packet small t = of_payload packet.payload t
  where
    of_payload :
        (x : Payload)
        → IsTimelyPacket p f (record packet { payload = x })
        → All (λ ev. pos k ≤ℤ ev.frame) (arrival p (pos f) k x)
    of_payload (event ev) t = arrival-IsTimely p f k ev small t
    of_payload (test_packet_1 a b) t = tt
    of_payload (test_packet_2 a b) t = tt
    of_payload (handshake a) t = tt
    of_payload (plain_text a) t = tt
    of_payload disconnected t = tt
    of_payload connected t = tt
    of_payload (ball a) t = tt
    of_payload (state a) t = tt
    of_payload (unknown a) t = tt

arrivals-IsTimely :
    (p : Protocol) (f k : ℕ)
    → f < 2 ^ 30
    → (packets : List Packet) → All (IsTimelyPacket p f) packets
    → All (λ ev. pos k ≤ℤ ev.frame) (arrivals p (pos f) k packets)
arrivals-IsTimely p f k small [] t = tt
arrivals-IsTimely p f k small (packet ∷ packets) (t, ts) =
    All-append (λ ev. pos k ≤ℤ ev.frame) (arrival p (pos f) k packet.payload)
      (arrivals p (pos f) k packets) (payload-IsTimely p f k packet small t)
      (arrivals-IsTimely p f k small packets ts)

none_early :
    (m k : ℕ) (evs : List Event) → k < m → All (λ ev. pos m ≤ℤ ev.frame) evs → at_frame k evs ≡ []
none_early m k [] lt h = refl
none_early m k (ev ∷ evs) lt (h, hs) = rw (differs ev.frame h) (none_early m k evs lt hs)
  where
    differs : (z : ℤ) → pos m ≤ℤ z → eqb_ℤ z (pos k) ≡ false
    differs (pos z) h = ground arith
    differs (negsuc z) h = absurd (omega arith)

module _ (heap : Allocator) (grows : GrowsInPlace heap)
    {qsort : (Event → Event → ℤ) → List Event → List Event} (q : IsQsort qsort) (s0 : State)
    (p : Protocol) (lag : ℕ) (v : IsProtocol p lag) (n : ℕ) (small : n < 2 ^ 29) where
  -- In a round that receives no late event the past is final: no state that was computed before
  -- changes, and no event that waits will be late.
  pub round-final :
      (inputs : List Input) (packets : List Packet) (g : Game)
      → All (IsReceived p) packets
      → All (IsTimelyPacket p (suc n)) packets
      → IsOnTime g.event_buffer
      → IsRound qsort s0 g n
      → Returns
          (λ r.
            RoundDone qsort s0 p lag n inputs packets g r
            × IsOnTime r.1.event_buffer
            × ((j : ℕ) → j ≤ n → element r.1.state_trace j ≡ element g.state_trace j))
          (round heap qsort p inputs packets g)
  round-final inputs packets g rs ts on w =
      let (r, e, d) = round-IsRound heap grows q s0 p lag v n small inputs packets g rs w in
      let on' : IsOnTime r.1.event_buffer = λ k.
        subst (All λ ev. pos k ≤ℤ ev.frame) (sym (d.waiting k)) (
          All-append (λ ev. pos k ≤ℤ ev.frame) (events_at g.event_buffer k)
            (arrivals p (pos (suc n)) k packets) (on k)
            (arrivals-IsTimely p (suc n) k (omega arith) packets ts)) in
      let same : (k : ℕ) → k ≤ n → Perm (events_at r.1.event_trace k) (events_at g.event_trace k) =
        λ k le.
          subst (Perm (events_at r.1.event_trace k))
            (rw
              (
                none_early (suc n) k (events_at r.1.event_buffer (suc n)) (omega arith)
                    (on' (suc n)),
                ne→==_false k (suc n + lag) (λ e. absurd (omega arith)),
              )
              (append-nil (events_at g.event_trace k ++ [])
                ∙ append-nil (events_at g.event_trace k)))
            (d.known k) in
      (
        r,
        e,
        (
          d,
          on',
          λ j le.
              let (s, at, of, _) = w.past j le in
              let (s', at', of', _) = d.next.past j (omega arith) in
              at'
              ∙ sym of'
              ∙ replay-perm s0 (events_at r.1.event_trace) (events_at g.event_trace) q q
                  (IsCells-events IsEvent r.1.event_trace d.next.game.cells) j
                  (λ k le'. same k (omega arith))
              ∙ of
              ∙ sym at,
        ),
      )
