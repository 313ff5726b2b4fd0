-- ===== src/Ordering/Client/OnTime.antt =====
-- What the delays of src/game_fasteventordering.c are for: no client has to roll back.
use mathlib.Core.Path.{subst}
use native.Mathlib.Nat.{zero-add}
use sasd_protocols.Prelude.{
  ℕ, suc, ◌+◌, ◌^◌, ◌≤◌, ◌<◌, ◌≡◌, refl, sym, ap, ◌∙◌, List, [], ◌∷◌, ℤ, pos, negsuc, ◌≤ℤ◌, ◌+ℤ◌,
  some, All, Returns, arith, pos_part, neg_part,
}
use mathlib.Core.Option.{some-injective}
use sasd_protocols.Packets.Serialize.Whole.{pos-add}
use sasd_protocols.Buffer.Types.{Allocator}
use sasd_protocols.Balls.Types.{State, Event, max_players}
use sasd_protocols.Balls.Sorting.{IsQsort}
use sasd_protocols.Packets.Types.{
  Packet, Payload, test_packet_1, test_packet_2, handshake, plain_text, disconnected, connected,
  ball, state, event, unknown,
}
use sasd_protocols.Vec.Slots.Laws.{element}
use sasd_protocols.Ordering.{Matrix, at, lags, fill_from, compute_delays}
use sasd_protocols.Ordering.Difs.{IsTable, get_or-fill_from}
use sasd_protocols.Ordering.Consistent.{compute_delays-consistent}
use sasd_protocols.Rollback.Cells.Laws.{GrowsInPlace}
use sasd_protocols.Rollback.Keys.{Input}
use sasd_protocols.Rollback.Loop.{Game, entry, round}
use sasd_protocols.Rollback.Loop.Lags.{IsPlayer, IsLag, IsLags, below, entry-at, entry-IsLags}
use sasd_protocols.Rollback.Loop.Round.{IsRound, RoundDone}
use sasd_protocols.Rollback.Loop.OnTime.{IsTimely, IsTimelyPacket, IsOnTime, round-final}
use sasd_protocols.Ordering.Client.{delays_of, ordering}
use sasd_protocols.Ordering.Client.Laws.{
  lags-IsLags, delays-IsLags, IsMade, IsMadePacket, execution_frame_lem, made-IsReceived,
}

-- An event of one of the clients, which arrives at frame `f`, not after the delay of its player.
pub record IsPrompt (d : Matrix) (n_clients i f : ℕ) (ev : Event) : Type 0 where
  pub made : IsMade ev
  pub other : ℕ
  pub in_game : other < n_clients
  pub has_player : ev.player ≡ pos other
  pub in_time : pos f ≤ℤ ev.summon_frame +ℤ at d i other

abbrev pub IsPromptPacket : Matrix → ℕ → ℕ → ℕ → Packet → Type 0
IsPromptPacket d n_clients i f packet = of_payload packet.payload
  where
    of_payload : Payload → Type 0
    of_payload (event ev) = IsPrompt d n_clients i f ev
    of_payload _ = Unit

at-fill_from :
    (m i j : ℕ) (v : ℕ → ℕ → ℤ)
    → i < m
    → j < m
    → at (fill_from m 0 λ i. fill_from m 0 (v i)) i j ≡ v i j
at-fill_from m i j v hi hj =
    rw
      (
        get_or-fill_from m 0 i (λ i. fill_from m 0 (v i)) [] hi,
        zero-add i,
        get_or-fill_from m 0 j (v i) (pos 0) hj,
        zero-add j,
      )
      refl

-- The array holds what `compute_delays` has found.
at-delays_of :
    (d : Matrix) (i j : ℕ) → i < max_players → j < max_players → at (delays_of d) i j ≡ at d i j
unfolding delays_of
at-delays_of d i j hi hj = at-fill_from max_players i j (at d) hi hj

parts : (z : ℤ) → IsLag z → (pos_part z ≤ 2 ^ 20) × (neg_part z ≡ 0)
parts (pos n) h = (omega (arith, h.1), refl)
parts (negsuc n) h = absurd (omega (arith, h.0))

module _ (n_clients : ℕ) (some_client : 0 < n_clients) (few_clients : n_clients ≤ max_players)
    (d : Matrix) (found : compute_delays lags n_clients ≡ some d) (i : ℕ)
    (in_game : i < n_clients) where
  valid_delays : IsLags (delays_of d)
  valid_delays =
      let (d', e, valid) = delays-IsLags n_clients some_client few_clients in
      subst (λ x. IsLags (delays_of x)) (some-injective _ _ (sym e ∙ found)) valid

  lags-IsTable : IsTable n_clients lags
  lags-IsTable i j hi hj =
      let (_, h) = entry-at lags i j lags-IsLags (omega arith) (omega arith) in
      parts (at lags i j) h

  lag_before : (j : ℕ) → j < n_clients → at lags i j ≤ℤ at (delays_of d) i j
  lag_before j h =
      let (d', e, before, _) = compute_delays-consistent lags n_clients some_client lags-IsTable in
      subst (λ x. at lags i j ≤ℤ x) (sym (at-delays_of d i j (omega arith) (omega arith)))
        (subst (λ x. at lags i j ≤ℤ at x i j) (some-injective _ _ (sym e ∙ found))
          (before i j in_game h))

  IsPrompt-IsTimely :
      (own : ℤ) (f : ℕ) (ev : Event)
      → IsPrompt d n_clients i f ev
      → IsTimely (ordering (delays_of d) (pos i) own) f ev
  IsPrompt-IsTimely own f ev h =
      let me : IsPlayer (pos i) = (omega arith, omega arith) in
      let (s, delay, e, few, has_delay, small, executed) =
        execution_frame_lem (delays_of d) valid_delays (pos i) own me ev h.made in
      let (at_lag, lag_valid) =
        entry-at lags i h.other lags-IsLags (omega arith) (omega (arith, h.in_game)) in
      let (at_delay, _) =
        entry-at (delays_of d) i h.other valid_delays (omega arith) (omega (arith, h.in_game)) in
      let (lag, is_lag, lag_small) = below (at lags i h.other) (2 ^ 20) lag_valid.0 lag_valid.1 in
      let is_delay : at (delays_of d) i h.other ≡ pos delay =
        some-injective _ _
          (sym at_delay ∙ ap (entry (delays_of d) (pos i)) (sym h.has_player) ∙ has_delay) in
      let in_time : pos f ≤ℤ pos (s + delay) =
        subst (λ x. pos f ≤ℤ x)
          (ap (λ x. ev.summon_frame +ℤ x)
              (sym (at-delays_of d i h.other (omega arith) (omega (arith, h.in_game))) ∙ is_delay)
            ∙ ap (λ x. x +ℤ pos delay) e
            ∙ pos-add s delay)
          h.in_time in
      let over : pos lag ≤ℤ pos delay =
        subst (λ x. pos lag ≤ℤ x) is_delay
          (subst (λ x. x ≤ℤ at (delays_of d) i h.other) is_lag (lag_before h.other h.in_game)) in
      record {
        at = s + delay;
        executed = executed;
        in_time = omega (arith, in_time);
        lag = lag;
        has_lag = ap (entry lags (pos i)) h.has_player ∙ at_lag ∙ ap some is_lag;
        lag_small = lag_small;
        summoned = s;
        has_summoned = e;
        summoned_small = few;
        lag_over = omega (arith, over);
      }

  IsPromptPacket-IsMadePacket :
      (f : ℕ) (packet : Packet)
      → IsPromptPacket d n_clients i f packet
      → IsMadePacket packet
        × ((own : ℤ) → IsTimelyPacket (ordering (delays_of d) (pos i) own) f packet)
  IsPromptPacket-IsMadePacket f packet h = of_payload packet.payload h
    where
      of_payload :
          (x : Payload)
          → IsPromptPacket d n_clients i f (record packet { payload = x })
          → IsMadePacket (record packet { payload = x })
            × ((own : ℤ)
                → IsTimelyPacket
                    (ordering (delays_of d) (pos i) own)
                    f
                    (record packet { payload = x }))
      of_payload (event ev) h = (h.made, λ own. IsPrompt-IsTimely own f ev h)
      of_payload (test_packet_1 a b) h = (tt, λ own. tt)
      of_payload (test_packet_2 a b) h = (tt, λ own. tt)
      of_payload (handshake a) h = (tt, λ own. tt)
      of_payload (plain_text a) h = (tt, λ own. tt)
      of_payload disconnected h = (tt, λ own. tt)
      of_payload connected h = (tt, λ own. tt)
      of_payload (ball a) h = (tt, λ own. tt)
      of_payload (state a) h = (tt, λ own. tt)
      of_payload (unknown a) h = (tt, λ own. tt)

  all_prompt :
      (f : ℕ) (packets : List Packet)
      → All (IsPromptPacket d n_clients i f) packets
      → All IsMadePacket packets
        × ((own : ℤ) → All (IsTimelyPacket (ordering (delays_of d) (pos i) own) f) packets)
  all_prompt f [] hs = (tt, λ own. tt)
  all_prompt f (packet ∷ packets) (h, hs) =
      let (m, t) = IsPromptPacket-IsMadePacket f packet h in
      let (ms, ts) = all_prompt f packets hs in ((m, ms), λ own. (t own, ts own))

-- Fast event ordering needs no rollback: with the delays that `compute_delays` has found for one to
-- eight clients, a round that receives only events of these clients that come before the delay of
-- their sender is over leaves all states that were computed before as they are. What waits in the
-- buffer will not be late either, so that this goes on.
pub ordering-round-final :
    (heap : Allocator)
    → GrowsInPlace heap
    → {qsort : (Event → Event → ℤ) → List Event → List Event} → IsQsort qsort
    → (s0 : State) (n_clients : ℕ) (d : Matrix) (i own n : ℕ) (inputs : List Input)
      (packets : List Packet) (g : Game)
    → 0 < n_clients
    → n_clients ≤ max_players
    → compute_delays lags n_clients ≡ some d
    → i < n_clients
    → entry (delays_of d) (pos i) (pos i) ≡ some (pos own)
    → n < 2 ^ 29
    → All (IsPromptPacket d n_clients i (suc n)) packets
    → IsOnTime g.event_buffer
    → IsRound qsort s0 g n
    → Returns
        (λ r.
          RoundDone qsort s0 (ordering (delays_of d) (pos i) (pos own)) own n inputs packets g r
          × IsOnTime r.1.event_buffer
          × ((j : ℕ) → j ≤ n → element r.1.state_trace j ≡ element g.state_trace j))
        (round heap qsort (ordering (delays_of d) (pos i) (pos own)) inputs packets g)
ordering-round-final heap grows q s0 n_clients d i own n inputs packets g some_client few_clients
      found in_game e small prompt on w =
    let valid = valid_delays n_clients some_client few_clients d found i in_game in
    let (own', e', own_small) =
      entry-IsLags (delays_of d) (pos i) (pos i) valid (omega arith, omega arith)
        (omega arith, omega arith) in
    let same : own' ≡ own = ap pos_part (some-injective _ _ (sym e' ∙ e)) in
    let (made, timely) =
      all_prompt n_clients some_client few_clients d found i in_game (suc n) packets prompt in
    round-final heap grows q s0 (ordering (delays_of d) (pos i) (pos own)) own
      (record {
        has_lag = refl;
        lag_small = subst (λ x. x ≤ 2 ^ 20) same own_small;
        player_low = omega arith;
        player_high = omega arith;
      })
      n small inputs packets g
      (made-IsReceived (delays_of d) valid (pos i) (pos own) (omega arith, omega arith) packets
        made)
      (timely (pos own)) on w
