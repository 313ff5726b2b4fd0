-- ===== src/DeadReckoning/Client/Laws.antt =====
-- What a round of src/game_deadreckoning.c does: whatever states have come from the server, it shows
-- an estimate for the frame of the client.
use sasd_protocols.Prelude.{
  ℕ, suc, ◌^◌, ◌≡◌, inl, inr, refl, sym, ap, ◌∙◌, List, [], ◌∷◌, ◌++◌, append-nil, append_assoc,
  length, pos, ◌≤ℤ◌, ◌==◌, Bool-cases, All, Returns,
}
use sasd_protocols.Buffer.Types.{Allocator}
use sasd_protocols.Balls.Types.{State, IsEvent, IsWellFormed}
use sasd_protocols.Packets.Types.{
  Packet, Payload, test_packet_1, test_packet_2, handshake, plain_text, disconnected, connected,
  ball, state, event, unknown,
}
use sasd_protocols.Rollback.Cells.Laws.{GrowsInPlace, IsCells}
use sasd_protocols.Rollback.Loop.Lags.{IsPlayer}
use sasd_protocols.DeadReckoning.Client.{
  StVec, Estimator, st_vec_push, st_vec_grown, receive_state, receive_states,
}

-- A state that a server can have sent.
abbrev pub IsServed : State → Type 0
IsServed s = IsWellFormed s × (pos 0 ≤ℤ s.frame) × (s.frame ≤ℤ pos (2 ^ 29))

abbrev pub IsServedPacket : Packet → Type 0
IsServedPacket packet = of_payload packet.payload
  where
    of_payload : Payload → Type 0
    of_payload (state s) = IsServed s
    of_payload _ = Unit

-- The states among packets, in order.
abbrev pub payload_states : Payload → List State
payload_states (state s) = s ∷ []
payload_states _ = []

abbrev pub states_of : List Packet → List State
states_of [] = []
states_of (packet ∷ packets) = payload_states packet.payload ++ states_of packets

-- The client between two rounds, frame `n + 1` being the next one: no state in it is of a later frame.
pub record IsEstimator (g : Estimator) (n : ℕ) : Type 0 where
  pub frame : g.frame ≡ pos (suc n)
  pub player : IsPlayer g.player
  pub cells : IsCells IsEvent g.event_trace
  pub memory : All IsServed g.state_memory.stats
  pub well_formed : IsWellFormed g.stat
  pub stat_low : pos 0 ≤ℤ g.stat.frame
  pub stat_high : g.stat.frame ≤ℤ pos (suc n)

module _ (heap : Allocator) (grows : GrowsInPlace heap) (state_size : ℕ) where
  st_vec_push_lem :
      (v : StVec) (st : State)
      → Returns (λ v'. v'.stats ≡ v.stats ++ (st ∷ [])) (st_vec_push heap state_size v st)
  unfolding st_vec_push st_vec_grown
  st_vec_push_lem v st = elim (Bool-cases (length v.stats == v.count)) [
    | inl e ↦ rw (e, grows.in_place) (_, refl, refl)
    | inr e ↦ rw e (_, refl, refl)
  ]

  receive_state_lem :
      (v : StVec) (x : Payload)
      → Returns (λ v'. v'.stats ≡ v.stats ++ payload_states x) (receive_state heap state_size v x)
  unfolding receive_state
  receive_state_lem v (state st) = st_vec_push_lem v st
  receive_state_lem v (test_packet_1 a b) = (v, refl, sym (append-nil v.stats))
  receive_state_lem v (test_packet_2 a b) = (v, refl, sym (append-nil v.stats))
  receive_state_lem v (handshake a) = (v, refl, sym (append-nil v.stats))
  receive_state_lem v (plain_text a) = (v, refl, sym (append-nil v.stats))
  receive_state_lem v disconnected = (v, refl, sym (append-nil v.stats))
  receive_state_lem v connected = (v, refl, sym (append-nil v.stats))
  receive_state_lem v (ball a) = (v, refl, sym (append-nil v.stats))
  receive_state_lem v (event a) = (v, refl, sym (append-nil v.stats))
  receive_state_lem v (unknown a) = (v, refl, sym (append-nil v.stats))

  -- The states that came are put behind those that are there.
  pub receive_states_lem :
      (packets : List Packet) (v : StVec)
      → Returns
          (λ v'. v'.stats ≡ v.stats ++ states_of packets)
          (receive_states heap state_size packets v)
  unfolding receive_states
  receive_states_lem [] v = (v, refl, sym (append-nil v.stats))
  receive_states_lem (packet ∷ packets) v =
      let (v', e, a) = receive_state_lem v packet.payload in
      let (v'', e', b) = receive_states_lem packets v' in
      rw e (
        v'',
        e',
        b
            ∙ ap (λ l. l ++ states_of packets) a
            ∙ append_assoc v.stats (payload_states packet.payload) (states_of packets),
      )
