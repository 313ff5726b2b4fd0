-- ===== src/Ordering/Client/Laws.antt =====
-- The program of src/game_fasteventordering.c plays with the events of all players.
use mathlib.Core.Path.{subst}
use sasd_protocols.Prelude.{
  ℕ, zero, suc, ◌+◌, ◌^◌, ◌≤◌, ◌<◌, ◌≡◌, refl, ap, ◌∙◌, List, [], ◌∷◌, ℤ, pos, ◌≤ℤ◌, some, ◌>>=◌,
  All, arith, ◌-ℤ◌, ◌+ℤ◌,
}
use sasd_protocols.Prelude.Word.{signed, bits}
use sasd_protocols.Ordering.{
  Matrix, lags, compute_delays, try_from, difs, dif, max_loop, greater, min_of, min_loop, lesser,
  delay_table, delay,
}
use sasd_protocols.Rollback.Loop.Lags.{IsPlayer, IsLags, below, entry-IsLags}
use sasd_protocols.Balls.Types.{Event}
use sasd_protocols.Balls.Collide.{i32}
use sasd_protocols.Prelude.Word.{signed-bits_32}
use sasd_protocols.Packets.Serialize.Whole.{pos-add}
use sasd_protocols.Packets.Types.{
  Packet, Payload, test_packet_1, test_packet_2, handshake, plain_text, disconnected, connected,
  ball, state, event, unknown,
}
use sasd_protocols.Rollback.Loop.{entry}
use sasd_protocols.Rollback.Loop.Arrivals.{IsRemote, IsReceived}
use sasd_protocols.Rollback.Main.{Turn}
use sasd_protocols.Ordering.Client.{delays_of, execution_frame, ordering}

pub lags-IsLags : IsLags lags
lags-IsLags = omega arith

-- For each number of clients there can be, the delays are found; none is negative or huge.
pub delays-IsLags :
    (n : ℕ) → 0 < n → n ≤ 8 → (d : Matrix) × (compute_delays lags n ≡ some d) × IsLags (delays_of d)
unfolding compute_delays try_from difs dif max_loop greater min_of min_loop lesser delay_table delay
    ◌-ℤ◌ ◌+ℤ◌ signed bits delays_of
delays-IsLags zero h k = absurd (omega arith)
delays-IsLags (suc zero) h k = (_, refl, omega arith)
delays-IsLags (suc (suc zero)) h k = (_, refl, omega arith)
delays-IsLags (suc (suc (suc zero))) h k = (_, refl, omega arith)
delays-IsLags (suc (suc (suc (suc zero)))) h k = (_, refl, omega arith)
delays-IsLags (suc (suc (suc (suc (suc zero))))) h k = (_, refl, omega arith)
delays-IsLags (suc (suc (suc (suc (suc (suc zero)))))) h k = (_, refl, omega arith)
delays-IsLags (suc (suc (suc (suc (suc (suc (suc zero))))))) h k = (_, refl, omega arith)
delays-IsLags (suc (suc (suc (suc (suc (suc (suc (suc zero)))))))) h k = (_, refl, omega arith)
delays-IsLags (suc (suc (suc (suc (suc (suc (suc (suc (suc n))))))))) h k = absurd (omega arith)

-- What a client sends: the event of a key, or that of a connection, made at a frame of the game. The
-- frame of execution is not looked at.
pub record IsMade (ev : Event) : Type 0 where
  pub player : IsPlayer ev.player
  pub summoned_low : pos 1 ≤ℤ ev.summon_frame
  pub summoned_high : ev.summon_frame ≤ℤ pos (2 ^ 29)
  pub button_low : pos 0 ≤ℤ ev.button
  pub button_high : ev.button ≤ℤ pos 4
  pub pressed_low : pos 0 ≤ℤ ev.pressed
  pub pressed_high : ev.pressed ≤ℤ pos 1

abbrev pub IsMadePacket : Packet → Type 0
IsMadePacket packet = of_payload packet.payload
  where
    of_payload : Payload → Type 0
    of_payload (event ev) = IsMade ev
    of_payload _ = Unit

module _ (delays : Matrix) (valid : IsLags delays) (player own : ℤ) (h : IsPlayer player) where
  -- An event is executed when the delay of its player is over.
  pub execution_frame_lem :
      (ev : Event)
      → IsMade ev
      → (s delay : ℕ) × (ev.summon_frame ≡ pos s)
        × (s ≤ 2 ^ 29)
        × (entry delays player ev.player ≡ some (pos delay))
        × (delay ≤ 2 ^ 20)
        × (execution_frame delays player ev ≡ some (pos (s + delay)))
  unfolding execution_frame
  execution_frame_lem ev m =
      let (delay, e, small) = entry-IsLags delays player ev.player valid h m.player in
      let (s, e', few) =
        below ev.summon_frame (2 ^ 29) (omega (arith, m.summoned_low)) m.summoned_high in
      let sum : i32 (ev.summon_frame +ℤ pos delay) ≡ pos (s + delay) =
        ap (λ z. i32 (z +ℤ pos delay)) e'
        ∙ rw (pos-add s delay) (signed-bits_32 (pos (s + delay)) (omega arith, omega arith)) in
      (
        s,
        delay,
        e',
        few,
        e,
        small,
        ap (λ o. o >>= λ d. some (i32 (ev.summon_frame +ℤ d))) e ∙ ap some sum,
      )

  IsMade-IsRemote : (ev : Event) → IsMade ev → IsRemote (ordering delays player own) ev
  IsMade-IsRemote ev m =
      let (s, delay, e, few, _, small, executed) = execution_frame_lem ev m in
      let (lag, has_lag, lag_small) = entry-IsLags lags player ev.player lags-IsLags h m.player in
      let first : pos 1 ≤ℤ pos s = subst (λ z. pos 1 ≤ℤ z) e m.summoned_low in
      record {
        at = pos (s + delay);
        executed = executed;
        lag = lag;
        has_lag = has_lag;
        lag_small = lag_small;
        summoned = s;
        has_summoned = e;
        summoned_small = few;
        timed = record {
          valid = record {
            player_low = m.player.0;
            player_high = m.player.1;
            frame_low = omega arith;
            frame_high = omega arith;
            button_low = omega (arith, m.button_low);
            button_high = omega (arith, m.button_high);
            pressed_low = omega (arith, m.pressed_low);
            pressed_high = omega (arith, m.pressed_high);
          };
          after_start = omega arith;
        };
      }

  IsMadePacket-IsReceived :
      (packet : Packet) → IsMadePacket packet → IsReceived (ordering delays player own) packet
  IsMadePacket-IsReceived packet m = of_payload packet.payload m
    where
      of_payload :
          (x : Payload)
          → IsMadePacket (record packet { payload = x })
          → IsReceived (ordering delays player own) (record packet { payload = x })
      of_payload (event ev) m = IsMade-IsRemote ev m
      of_payload (test_packet_1 a b) m = tt
      of_payload (test_packet_2 a b) m = tt
      of_payload (handshake a) m = tt
      of_payload (plain_text a) m = tt
      of_payload disconnected m = tt
      of_payload connected m = tt
      of_payload (ball a) m = tt
      of_payload (state a) m = tt
      of_payload (unknown a) m = tt

  pub made-IsReceived :
      (packets : List Packet)
      → All IsMadePacket packets
      → All (IsReceived (ordering delays player own)) packets
  made-IsReceived [] m = tt
  made-IsReceived (packet ∷ packets) (m, ms) =
      (IsMadePacket-IsReceived packet m, made-IsReceived packets ms)

  pub all_made-IsReceived :
      (turns : List Turn)
      → All (λ turn. All IsMadePacket turn.1) turns
      → All (λ turn. All (IsReceived (ordering delays player own)) turn.1) turns
  all_made-IsReceived [] m = tt
  all_made-IsReceived ((inputs, packets) ∷ turns) (m, ms) =
      (made-IsReceived packets m, all_made-IsReceived turns ms)
