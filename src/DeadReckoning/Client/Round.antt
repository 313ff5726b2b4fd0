-- ===== src/DeadReckoning/Client/Round.antt =====
-- A round of src/game_deadreckoning.c against its specification.
use mathlib.Core.List.{Perm}
use mathlib.Core.Option.{some-injective}
use mathlib.Core.Path.{subst}
use native.Mathlib.Decide.{ℕ_discrete}
use sasd_protocols.Prelude.{
  ℕ, zero, suc, ◌+◌, ◌-◌, ◌^◌, ◌≤◌, ◌<◌, ◌≡◌, ◌⊎◌, inl, inr, refl, sym, ap, ◌∙◌, List, [], ◌∷◌,
  ◌++◌, append-nil, get_elem?, ℤ, pos, ◌≤ℤ◌, ◌+ℤ◌, ◌-ℤ◌, leb_ℤ, pos_part, Option, none, some, ◌>>=◌,
  ◌==◌, ==_iff, ne→==_false, Bool-cases, if◌then◌else◌, All, Returns, true, false, arith,
}
use sasd_protocols.Prelude.Word.{signed-bits_32}
use sasd_protocols.Packets.Serialize.Whole.{pos-add}
use sasd_protocols.Buffer.Types.{Allocator}
use sasd_protocols.Balls.Types.{State, Event, IsEvent, IsWellFormed}
use sasd_protocols.Balls.Collide.{i32}
use sasd_protocols.Balls.Sorting.{IsQsort}
use sasd_protocols.Packets.Types.{
  Packet, Payload, test_packet_1, test_packet_2, handshake, plain_text, disconnected, connected,
  ball, state, event, unknown,
}
use sasd_protocols.Rollback.Cells.Laws.{GrowsInPlace, events_at, add_events-Added, All-append}
use sasd_protocols.Rollback.Keys.{Input, key_events, still_running}
use sasd_protocols.Rollback.Loop.{row_at}
use sasd_protocols.Rollback.Loop.Arrivals.{key_events-IsEvent}
use sasd_protocols.Rollback.Loop.Lags.{IsPlayer, IsLag, below, row_at-All}
use sasd_protocols.Rollback.Loop.Sorted.{i32-suc, index-pos}
use sasd_protocols.DeadReckoning.Client.{
  Estimator, input_lags, local_lags, local_event, replaced, local_turn, server_turn, go_on,
  estimate_turn, client_round,
}
use sasd_protocols.DeadReckoning.Client.Estimate.{
  predict, own_due, predict-perm, own_due-perm, own_due-IsEvent, go_on-predict,
}
use sasd_protocols.DeadReckoning.Client.Laws.{
  IsServed, IsServedPacket, payload_states, states_of, IsEstimator, receive_states_lem,
}

All-states_of :
    (packets : List Packet) → All IsServedPacket packets → All IsServed (states_of packets)
All-states_of [] h = tt
All-states_of (packet ∷ packets) (h, hs) =
    All-append IsServed (payload_states packet.payload) (states_of packets)
      (of_payload packet.payload h) (All-states_of packets hs)
  where
    of_payload :
        (x : Payload)
        → IsServedPacket (record packet { payload = x })
        → All IsServed (payload_states x)
    of_payload (state s) h = (h, tt)
    of_payload (test_packet_1 a b) h = tt
    of_payload (test_packet_2 a b) h = tt
    of_payload (handshake a) h = tt
    of_payload (plain_text a) h = tt
    of_payload disconnected h = tt
    of_payload connected h = tt
    of_payload (ball a) h = tt
    of_payload (event a) h = tt
    of_payload (unknown a) h = tt

served_at :
    (stats : List State) (i : ℕ) (s : State)
    → All IsServed stats
    → get_elem? stats i ≡ some s
    → IsServed s
served_at [] i s h e = absurd (ground arith)
served_at (x ∷ stats) zero s (h, hs) e = subst IsServed (some-injective _ _ e) h
served_at (x ∷ stats) (suc i) s (h, hs) e = served_at stats i s hs e

-- The state that the estimate starts from: well-formed, and of no later frame than that of the client.
abbrev pub IsBase : ℕ → State → Type 0
IsBase n s = IsWellFormed s × ((m : ℕ) × (s.frame ≡ pos m) × (m ≤ suc n))

replaced_lem :
    (stat : State) (access n lag : ℕ) (looked : Option State)
    → n < 2 ^ 29
    → lag ≤ 2 ^ 20
    → IsBase n stat
    → ((s : State) → looked ≡ some s → IsServed s)
    → IsBase n (replaced stat access (pos (suc n)) (pos lag) looked).0
unfolding replaced
replaced_lem stat access n lag none small lag_small b h = b
replaced_lem stat access n lag (some s) small lag_small b h =
    let (w, lo, hi) = h s refl in
    let (k, e, few) = below s.frame (2 ^ 29) lo hi in
    let sum : i32 (s.frame +ℤ pos lag) ≡ pos (k + lag) =
      ap (λ z. i32 (z +ℤ pos lag)) e
      ∙ rw (pos-add k lag) (signed-bits_32 (pos (k + lag)) (omega arith, omega arith)) in
    elim (Bool-cases (leb_ℤ (i32 (s.frame +ℤ pos lag)) (pos (suc n)))) [
      | inl t ↦
          let le : leb_ℤ (pos (k + lag)) (pos (suc n)) ≡ true =
            ap (λ z. leb_ℤ z (pos (suc n))) (sym sum) ∙ t in
          let early : k ≤ suc n = ground arith in rw t (w, (k, e, early))
      | inr f ↦ rw f b
    ]

-- What the next base is, by the state that is looked up: that state, if its simulated lag is over,
-- and the one behind it is looked up next; else the estimate stays.
abbrev pub NextBase : State → ℕ → ℕ → ℕ → Option State → State × ℕ → Type 0
NextBase stat access n lag looked (base, access') =
    ((k : ℕ) × (looked ≡ some base)
      × (base.frame ≡ pos k)
      × (k + lag ≤ suc n)
      × (access' ≡ access + 1))
    ⊎ (((s : State) (k : ℕ) → looked ≡ some s → s.frame ≡ pos k → suc n < k + lag)
        × (base ≡ stat)
        × (access' ≡ access))

replaced-NextBase :
    (stat : State) (access n lag : ℕ) (looked : Option State)
    → n < 2 ^ 29
    → lag ≤ 2 ^ 20
    → ((s : State) → looked ≡ some s → IsServed s)
    → NextBase stat access n lag looked (replaced stat access (pos (suc n)) (pos lag) looked)
unfolding replaced
replaced-NextBase stat access n lag none small lag_small h =
    inr ((λ s k e. absurd (ground arith)), refl, refl)
replaced-NextBase stat access n lag (some s) small lag_small h =
    let (w, lo, hi) = h s refl in
    let (k, e, few) = below s.frame (2 ^ 29) lo hi in
    let sum : i32 (s.frame +ℤ pos lag) ≡ pos (k + lag) =
      ap (λ z. i32 (z +ℤ pos lag)) e
      ∙ rw (pos-add k lag) (signed-bits_32 (pos (k + lag)) (omega arith, omega arith)) in
    elim (Bool-cases (leb_ℤ (i32 (s.frame +ℤ pos lag)) (pos (suc n)))) [
      | inl t ↦
          let le : leb_ℤ (pos (k + lag)) (pos (suc n)) ≡ true =
            ap (λ z. leb_ℤ z (pos (suc n))) (sym sum) ∙ t in
          rw t (inl (k, refl, e, ground arith, refl))
      | inr f ↦
          let gt : leb_ℤ (pos (k + lag)) (pos (suc n)) ≡ false =
            ap (λ z. leb_ℤ z (pos (suc n))) (sym sum) ∙ f in
          let late : suc n < k + lag = ground arith in
          rw f (
            inr (
              (λ s' k' e' at.
                  let same : pos k ≡ pos k' =
                    sym e ∙ ap (λ x. x.frame) (some-injective _ _ e') ∙ at in
                  let index : k ≡ k' = cc in subst (λ x. suc n < x + lag) index late),
              refl,
              refl,
            ))
    ]

-- What a round leaves: the client one frame on, with the new own events and the states that came;
-- and the estimate, computed from its base up to the frame of the client.
pub record EstimateDone (qsort : (Event → Event → ℤ) → List Event → List Event)
    (local_lag input_lag n : ℕ) (inputs : List Input) (packets : List Packet) (g : Estimator)
    (r : List Event × Estimator) : Type 0 where
  pub next : IsEstimator r.1 (suc n)
  pub running : r.1.running ≡ still_running g.running inputs
  pub keys : List Event
  pub are_keys : keys ≡ key_events (local_event g.player (pos (suc n)) (pos local_lag)) inputs
  pub sent : r.0 ≡ events_at g.event_trace (suc n) ++ keys
  pub known :
      (k : ℕ)
      → Perm
          (events_at r.1.event_trace k)
          (events_at g.event_trace k ++ (if k == suc n then keys else []))
  pub remembered : r.1.state_memory.stats ≡ g.state_memory.stats ++ states_of packets
  pub base : State
  pub based :
      NextBase g.stat g.state_memory_access n input_lag
        (get_elem? (g.state_memory.stats ++ states_of packets) g.state_memory_access)
        (base, r.1.state_memory_access)
  pub from_frame : ℕ
  pub has_frame : base.frame ≡ pos from_frame
  pub shown :
      predict qsort (own_due local_lag r.1.event_trace) (suc n - from_frame) from_frame base
      ≡ some r.1.stat
  pub current : r.1.stat.frame ≡ pos (suc n)

-- An own event is valid.
pub local_event-IsEvent :
    (player : ℤ) (f lag : ℕ)
    → IsPlayer player
    → f + lag < 2 ^ 30
    → IsEvent (local_event player (pos f) (pos lag))
unfolding local_event
local_event-IsEvent player f lag h small =
    let e : i32 (pos f +ℤ pos lag) ≡ pos (f + lag) =
      rw (pos-add f lag) (signed-bits_32 (pos (f + lag)) (omega arith, omega arith)) in
    record {
      player_low = h.0;
      player_high = h.1;
      frame_low = rw e (omega arith);
      frame_high = rw e (omega arith);
      button_low = omega arith;
      button_high = omega arith;
      pressed_low = omega arith;
      pressed_high = omega arith;
    }

frames_left : (m n : ℕ) → m ≤ suc n → pos_part (pos (suc n) -ℤ pos m) ≡ suc n - m
unfolding ◌-ℤ◌ ◌+ℤ◌
frames_left m n h = ground arith

module _ (heap : Allocator) (grows : GrowsInPlace heap) (state_size : ℕ)
    {qsort : (Event → Event → ℤ) → List Event → List Event} (q : IsQsort qsort) (n : ℕ)
    (small : n < 2 ^ 29) where
  -- The three parts of a round, for the lags of the player.
  parts :
      (local_lag input_lag : ℕ) (inputs : List Input) (packets : List Packet) (g : Estimator)
      → local_lag ≤ 2 ^ 20
      → input_lag ≤ 2 ^ 20
      → All IsServedPacket packets
      → IsEstimator g n
      → Returns (EstimateDone qsort local_lag input_lag n inputs packets g) (
          local_turn heap state_size qsort (pos local_lag) inputs g >>= λ (sent, g1).
          server_turn heap state_size qsort (pos input_lag) packets g1 >>= λ g2.
          estimate_turn heap state_size qsort (pos local_lag) g2 >>= λ g3. some (sent, g3))
  unfolding local_turn server_turn estimate_turn
  parts local_lag input_lag inputs packets g local_small input_small served w =
      let keys = key_events (local_event g.player (pos (suc n)) (pos local_lag)) inputs in
      let valid =
        key_events-IsEvent (local_event g.player (pos (suc n)) (pos local_lag)) inputs
          (local_event-IsEvent g.player (suc n) local_lag w.player (omega arith)) in
      let (r, added, (a, all)) =
        add_events-Added heap grows IsEvent g.event_trace (suc n) w.cells (omega arith) keys
          valid in
      let (memory, received, stats) =
        receive_states_lem heap grows state_size packets g.state_memory in
      let known_states = g.state_memory.stats ++ states_of packets in
      let all_served =
        All-append IsServed g.state_memory.stats (states_of packets) w.memory
          (All-states_of packets served) in
      let looked = get_elem? known_states g.state_memory_access in
      let (early, at, below_next) = below g.stat.frame (suc n) w.stat_low w.stat_high in
      let res = replaced g.stat g.state_memory_access (pos (suc n)) (pos input_lag) looked in
      let (base_valid, (m, has_frame, le)) =
        replaced_lem g.stat g.state_memory_access n input_lag looked small input_small
          (w.well_formed, (early, at, below_next))
          (λ s. served_at known_states g.state_memory_access s all_served) in
      let (out, went, (predicted, valid', at', cells, perms)) =
        go_on-predict q (suc n - m) m local_lag res.0 r.1 (omega arith) local_small a.cells
          base_valid has_frame in
      let last : out.0.frame ≡ pos (suc n) =
        at' ∙ ap pos (let e : m + (suc n - m) ≡ suc n = omega arith in e) in
      let went' : go_on qsort (pos_part (pos (suc n) -ℤ res.0.frame)) res.0.frame (pos local_lag)
            (res.0, r.1)
          ≡ some out =
        ap (λ z. go_on qsort (pos_part (pos (suc n) -ℤ z)) z (pos local_lag) (res.0, r.1)) has_frame
        ∙ ap (λ k. go_on qsort k (pos m) (pos local_lag) (res.0, r.1)) (frames_left m n le)
        ∙ went in
      rw
        (
          w.frame,
          index-pos (suc n) (omega arith),
          added,
          received,
          stats,
          went',
          i32-suc (suc n) (omega arith),
        )
        (
          (
            r.0.evs,
            record g {
              running = still_running g.running inputs;
              stat = out.0;
              state_memory = memory;
              state_memory_access = res.1;
              event_trace = out.1;
              frame = pos (suc (suc n));
            },
          ),
          refl,
          record {
            next = record {
              frame = refl;
              player = w.player;
              cells = cells;
              memory = subst (All IsServed) (sym stats) all_served;
              well_formed = valid';
              stat_low = subst (λ z. pos 0 ≤ℤ z) (sym last) (omega arith);
              stat_high = subst (λ z. z ≤ℤ pos (suc (suc n))) (sym last) (omega arith);
            };
            running = refl;
            keys = keys;
            are_keys = refl;
            sent = all;
            known = λ k. elim (ℕ_discrete k (suc n)) [
              | yes e ↦ rw ((==_iff k (suc n)).1 e) (
                  subst (Perm (events_at out.1 k))
                    (subst (λ x. events_at r.1 x ≡ events_at g.event_trace x ++ keys) (sym e)
                      a.here)
                    (perms k))
              | no ne ↦ rw (ne→==_false k (suc n) ne) (
                  subst (Perm (events_at out.1 k))
                    (a.elsewhere k ne ∙ sym (append-nil (events_at g.event_trace k))) (perms k))
            ];
            remembered = stats;
            base = res.0;
            based =
                replaced-NextBase g.stat g.state_memory_access n input_lag looked small input_small
                  (λ s. served_at known_states g.state_memory_access s all_served);
            from_frame = m;
            has_frame = has_frame;
            shown =
                predict-perm (own_due local_lag out.1) (own_due local_lag r.1) q
                  (own_due-IsEvent local_lag out.1 cells) (own_due-perm local_lag out.1 r.1 perms)
                  (suc n - m) m res.0
                ∙ predicted;
            current = last;
          },
        )

  -- A round of the dead-reckoning client, whatever valid states have come from the server: it sends
  -- the own events of the frame, keeps the states in order, and takes the next of them as the base
  -- of its estimate, and looks up the one behind it from then on, if its simulated lag is over; else
  -- the base is the last estimate. The estimate is what the base becomes up to the
  -- client's frame with the own events, each put off by the local lag. Memory does not run out and
  -- blocks of events grow in place.
  pub client_round-EstimateDone :
      (inputs : List Input) (packets : List Packet) (g : Estimator)
      → All IsServedPacket packets
      → IsEstimator g n
      → (local_lag input_lag : ℕ) × (row_at local_lags g.player ≡ some (pos local_lag))
        × (row_at input_lags g.player ≡ some (pos input_lag))
        × Returns
            (EstimateDone qsort local_lag input_lag n inputs packets g)
            (client_round heap state_size qsort inputs packets g)
  unfolding client_round local_lags input_lags
  client_round-EstimateDone inputs packets g served w =
      let (a, has_local, (lo, hi)) =
        row_at-All IsLag local_lags g.player (omega arith) (omega arith) w.player in
      let (b, has_input, (lo', hi')) =
        row_at-All IsLag input_lags g.player (omega arith) (omega arith) w.player in
      let (local_lag, e, local_small) = below a (2 ^ 20) lo hi in
      let (input_lag, e', input_small) = below b (2 ^ 20) lo' hi' in
      let is_local = has_local ∙ ap some e in
      let is_input = has_input ∙ ap some e' in
      (
        local_lag,
        input_lag,
        is_local,
        is_input,
        rw (is_local, is_input)
            (parts local_lag input_lag inputs packets g local_small input_small served w),
      )
