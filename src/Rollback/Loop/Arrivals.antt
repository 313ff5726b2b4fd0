-- ===== src/Rollback/Loop/Arrivals.antt =====
-- The events that the loops of src/game_timewarp.c and src/game_fasteventordering.c receive, and
-- those that they make of keys.
use mathlib.Core.Path.{subst}
use sasd_protocols.Prelude.{
  ℕ, ◌+◌, ◌^◌, ◌≤◌, ◌<◌, ◌≡◌, ◌⊎◌, inl, inr, refl, sym, ap, ◌∙◌, List, [], ◌∷◌, ◌++◌, append-nil,
  append_assoc, ℤ, pos, ◌+ℤ◌, eqb_ℤ, ltb_ℤ, if◌then◌else◌, Option, none, some, ◌||◌, All, Returns,
  Bool, Bool-cases, true, false, arith,
}
use sasd_protocols.Prelude.Word.{signed-bits_32}
use sasd_protocols.Packets.Serialize.Whole.{pos-add}
use sasd_protocols.Buffer.Types.{Allocator}
use sasd_protocols.Balls.Types.{Event, IsEvent}
use sasd_protocols.Balls.Collide.{i32}
use sasd_protocols.Packets.Types.{
  Packet, Payload, test_packet_1, test_packet_2, handshake, plain_text, disconnected, connected,
  ball, state, event, unknown,
}
use sasd_protocols.Vec.Slots.{Slots}
use sasd_protocols.Rollback.Cells.{Cell, index}
use sasd_protocols.Rollback.Cells.Laws.{
  GrowsInPlace, events_at, IsCells, add_events-Added, All-append,
}
use sasd_protocols.Rollback.Keys.{Key, Input, quit, key, ignored, button_of, event_of, key_events}
use sasd_protocols.Rollback.Loop.{Protocol, entry, due, receive_event, receive_payload, receive_all}
use sasd_protocols.Rollback.Loop.Sorted.{index-pos}
use sasd_protocols.Rollback.Loop.Events.{IsTimed, eqb_pos}

-- An event that another client can have sent: its player has a lag, which is not negative, and it
-- is executed at a frame of the game.
pub record IsRemote (p : Protocol) (ev : Event) : Type 0 where
  pub at : ℤ
  pub executed : p.executed ev ≡ some at
  pub lag : ℕ
  pub has_lag : entry p.lags p.player ev.player ≡ some (pos lag)
  pub lag_small : lag ≤ 2 ^ 20
  pub summoned : ℕ
  pub has_summoned : ev.summon_frame ≡ pos summoned
  pub summoned_small : summoned ≤ 2 ^ 29
  pub timed : IsTimed (record ev { frame = at })

abbrev pub IsReceived : Protocol → Packet → Type 0
IsReceived p packet = of_payload packet.payload
  where
    of_payload : Payload → Type 0
    of_payload (event ev) = IsRemote p ev
    of_payload _ = Unit

-- The frame at which an event leaves the buffer: now, or when its lag is over.
pub due_lem :
    (f lag s : ℕ)
    → f < 2 ^ 30
    → lag ≤ 2 ^ 20
    → s ≤ 2 ^ 29
    → (d : ℕ) × (due (pos f) (pos lag) (pos s) ≡ pos d)
      × (f ≤ d)
      × (d < 2 ^ 30)
      × ((d ≡ f) ⊎ (d ≡ s + lag))
unfolding due
due_lem f lag s hf hl hs =
    let sum : i32 (pos s +ℤ pos lag) ≡ pos (s + lag) =
      rw (pos-add s lag) (signed-bits_32 (pos (s + lag)) (omega arith, omega arith)) in
    rw sum (by_test (eqb_ℤ (pos lag) (pos 0)))
  where
    by_test :
        (b : Bool)
        → (d : ℕ) × ((if b || ltb_ℤ (pos (s + lag)) (pos f) then pos f else pos (s + lag)) ≡ pos d)
          × (f ≤ d)
          × (d < 2 ^ 30)
          × ((d ≡ f) ⊎ (d ≡ s + lag))
    by_test true = (f, refl, omega arith, omega arith, inl refl)
    by_test false = elim (Bool-cases (ltb_ℤ (pos (s + lag)) (pos f))) [
      | inl e ↦ rw e (f, refl, omega arith, omega arith, inl refl)
      | inr e ↦ rw e (s + lag, refl, ground arith, omega arith, inr refl)
    ]

-- The events of a packet that wait for frame `k`.
abbrev pub arrival : Protocol → ℤ → ℕ → Payload → List Event
arrival p frame k (event ev) = of_event (p.executed ev) (entry p.lags p.player ev.player)
  where
    of_event : Option ℤ → Option ℤ → List Event
    of_event none lag = []
    of_event (some at) none = []
    of_event (some at) (some lag) =
        if eqb_ℤ (due frame lag ev.summon_frame) (pos k) then record ev { frame = at } ∷ [] else []
arrival p frame k _ = []

abbrev pub arrivals : Protocol → ℤ → ℕ → List Packet → List Event
arrivals p frame k [] = []
arrivals p frame k (packet ∷ packets) =
    arrival p frame k packet.payload ++ arrivals p frame k packets

module _ (heap : Allocator) (grows : GrowsInPlace heap) (p : Protocol) (f : ℕ)
    (small : f < 2 ^ 30) where
  -- The buffer `t`, after events have arrived in the buffer `s`.
  pub record Arrived (s : Slots Cell) (new : ℕ → List Event) (t : Slots Cell) : Type 0 where
    pub cells : IsCells IsTimed t
    pub added : (k : ℕ) → events_at t k ≡ events_at s k ++ new k

  unchanged : (s : Slots Cell) → IsCells IsTimed s → Returns (Arrived s λ k. []) (some s)
  unchanged s c = (s, refl, record { cells = c; added = λ k. sym (append-nil (events_at s k)) })

  receive_event_lem :
      (s : Slots Cell) (ev : Event)
      → IsCells IsTimed s
      → IsRemote p ev
      → Returns (Arrived s λ k. arrival p (pos f) k (event ev)) (receive_event heap p (pos f) s ev)
  unfolding receive_event
  receive_event_lem s ev c r =
      let (d, e, after, short, _) = due_lem f r.lag r.summoned small r.lag_small r.summoned_small in
      let due_at : due (pos f) (pos r.lag) ev.summon_frame ≡ pos d =
        ap (due (pos f) (pos r.lag)) r.has_summoned ∙ e in
      let at_d : index (due (pos f) (pos r.lag) ev.summon_frame) ≡ d =
        ap index due_at ∙ index-pos d (omega arith) in
      let one = record ev { frame = r.at } ∷ [] in
      let (t, q, (a, _)) =
        add_events-Added heap grows IsTimed s d c (omega arith) one (r.timed, tt) in
      rw (r.executed, r.has_lag, at_d, q)
        (
          t.1,
          refl,
          record {
            cells = a.cells;
            added = λ k. elim (eqb_pos d k) [
              | inl (same, yes_at) ↦
                  rw (ap (λ z. eqb_ℤ z (pos k)) due_at ∙ yes_at)
                    (subst (λ x. events_at t.1 x ≡ events_at s x ++ one) same a.here)
              | inr (other, not_at) ↦
                  rw (ap (λ z. eqb_ℤ z (pos k)) due_at ∙ not_at)
                    (a.elsewhere k (λ x. other (sym x)) ∙ sym (append-nil (events_at s k)))
            ];
          },
        )

  receive_payload_lem :
      (s : Slots Cell) (packet : Packet)
      → IsCells IsTimed s
      → IsReceived p packet
      → Returns
          (Arrived s λ k. arrival p (pos f) k packet.payload)
          (receive_payload heap p (pos f) s packet.payload)
  unfolding receive_payload
  receive_payload_lem s packet c r = of_payload packet.payload r
    where
      of_payload :
          (x : Payload)
          → IsReceived p (record packet { payload = x })
          → Returns (Arrived s λ k. arrival p (pos f) k x) (receive_payload heap p (pos f) s x)
      of_payload (test_packet_1 a b) r = unchanged s c
      of_payload (test_packet_2 a b) r = unchanged s c
      of_payload (handshake a) r = unchanged s c
      of_payload (plain_text a) r = unchanged s c
      of_payload disconnected r = unchanged s c
      of_payload connected r = unchanged s c
      of_payload (ball a) r = unchanged s c
      of_payload (state a) r = unchanged s c
      of_payload (event ev) r = receive_event_lem s ev c r
      of_payload (unknown a) r = unchanged s c

  -- Each event that is received waits in the buffer at its frame, behind those that were there.
  pub receive_all-Arrived :
      (s : Slots Cell) (packets : List Packet)
      → IsCells IsTimed s
      → All (IsReceived p) packets
      → Returns (Arrived s λ k. arrivals p (pos f) k packets) (receive_all heap p (pos f) s packets)
  unfolding receive_all
  receive_all-Arrived s [] c rs = unchanged s c
  receive_all-Arrived s (packet ∷ packets) c (r, rs) =
      let (t, q, a) = receive_payload_lem s packet c r in
      let (u, q', b) = receive_all-Arrived t packets a.cells rs in
      rw q (
        u,
        q',
        record {
          cells = b.cells;
          added = λ k.
              b.added k
              ∙ ap (λ xs. xs ++ arrivals p (pos f) k packets) (a.added k)
              ∙ append_assoc (events_at s k) (arrival p (pos f) k packet.payload)
                  (arrivals p (pos f) k packets);
        },
      )

-- The events of keys are valid, at the frame that the protocol gives own events.
pub key_events-IsEvent :
    (ev : Event) (inputs : List Input) → IsEvent ev → All IsEvent (key_events ev inputs)
unfolding key_events event_of button_of
key_events-IsEvent ev [] v = tt
key_events-IsEvent ev (quit ∷ is) v = key_events-IsEvent ev is v
key_events-IsEvent ev (key pressed k ∷ is) v =
    All-append IsEvent (event_of ev pressed (button_of k)) (key_events ev is) (of_key pressed k)
      (key_events-IsEvent ev is v)
  where
    of_key : (b : Bool) (k : Key) → All IsEvent (event_of ev b (button_of k))
    of_key b k = ground arith
key_events-IsEvent ev (ignored ∷ is) v = key_events-IsEvent ev is v
