-- ===== src/DeadReckoning/Client/Whole.antt =====
-- Whole games of src/game_deadreckoning.c.
use mathlib.Core.Path.{subst}
use sasd_protocols.Prelude.{
  ℕ, suc, ◌+◌, ◌*◌, ◌^◌, ◌<◌, ◌≡◌, refl, sym, ap, ◌∙◌, List, [], ◌∷◌, length, ℤ, pos, ◌≤ℤ◌, some,
  ◌>>=◌, All, Returns, Bool-cases, true, false, if◌then◌else◌, inl, inr, arith,
}
use sasd_protocols.Buffer.Types.{Allocator}
use sasd_protocols.Balls.Types.{State, Event, IsEvent, IsWellFormed}
use sasd_protocols.Balls.Sorting.{IsQsort}
use sasd_protocols.Packets.Types.{Packet, handshake}
use sasd_protocols.Rollback.Cells.Laws.{GrowsInPlace, IsCells}
use sasd_protocols.Rollback.Loop.Lags.{IsPlayer, IsLag, below, row_at-All}
use sasd_protocols.DeadReckoning.Client.{
  Estimator, client_start, st_vec_create, client_round, client_rounds, client_joined, client_main,
  local_lags, local_event,
}
use sasd_protocols.DeadReckoning.Client.Laws.{IsServedPacket, IsEstimator}
use sasd_protocols.Balls.Initial.{initial_state}
use sasd_protocols.Balls.Initial.Laws.{initial_state-IsWellFormed}
use sasd_protocols.Rollback.Cells.{absent}
use sasd_protocols.Rollback.Cells.Laws.{IsSound, open_new-Added}
use sasd_protocols.Vec.Slots.Laws.{slots_create-IsSlots}
use sasd_protocols.Rollback.Main.{Turn, client_id}
use sasd_protocols.Rollback.Keys.{Input, still_running}
use sasd_protocols.Rollback.Main.Laws.{closes, frames_played, runs_until_closed}
use sasd_protocols.DeadReckoning.Client.Round.{client_round-EstimateDone, local_event-IsEvent}

-- A client that has just started is in order, at frame 1.
client_start-IsEstimator :
    (heap : Allocator)
    → GrowsInPlace heap
    → (state_size : ℕ) (qsort : (Event → Event → ℤ) → List Event → List Event) (stat : State)
      (player : ℤ)
    → IsWellFormed stat
    → stat.frame ≡ pos 0
    → IsPlayer player
    → Returns
        (λ r. IsEstimator r.1 0 × (r.1.running ≡ true))
        (client_start heap state_size qsort stat player)
unfolding client_start local_lags st_vec_create
client_start-IsEstimator heap grows state_size qsort stat player valid at_start h =
    let (z, has_lag, (lo, hi)) = row_at-All IsLag local_lags player (omega arith) (omega arith) h in
    let (lag, e, lag_small) = below z (2 ^ 20) lo hi in
    let is_lag = has_lag ∙ ap some e in
    let (trace, q, (c, b, blank)) =
      slots_create-IsSlots heap 512 8 absent (grows.grants (512 * 8)) (omega arith) (omega arith)
        (omega arith) in
    let cells : IsCells IsEvent trace = record {
      slots = c;
      blank_absent = b;
      sound = λ i. subst (IsSound IsEvent) (sym (blank i)) tt;
    } in
    let connect = local_event player (pos 1) (pos lag) in
    let (r, pushed, (a, _)) =
      open_new-Added heap grows IsEvent trace 1 cells (omega arith) (connect ∷ [])
        (local_event-IsEvent player 1 lag h (omega arith), tt) (blank 1) in
    rw (grows.grants (8 + 8 * state_size), q, is_lag, pushed)
      (
        _,
        refl,
        (
          record {
            frame = refl;
            player = h;
            cells = a.cells;
            memory = tt;
            well_formed = valid;
            stat_low = subst (λ z. pos 0 ≤ℤ z) (sym at_start) (omega arith);
            stat_high = subst (λ z. z ≤ℤ pos 1) (sym at_start) (omega arith);
          },
          refl,
        ),
      )

-- When the window has been closed, no further round is played.
client_rounds-stopped :
    (heap : Allocator) (state_size : ℕ) (qsort : (Event → Event → ℤ) → List Event → List Event)
    (turns : List Turn) (g : Estimator)
    → g.running ≡ false
    → client_rounds heap state_size qsort turns g ≡ some g
unfolding client_rounds
client_rounds-stopped heap state_size qsort [] g e = refl
client_rounds-stopped heap state_size qsort ((inputs, packets) ∷ turns) g e = rw e refl

client_rounds-step :
    (heap : Allocator) (state_size : ℕ) (qsort : (Event → Event → ℤ) → List Event → List Event)
    (inputs : List Input) (packets : List Packet) (turns : List Turn) (g : Estimator)
    (r : List Event × Estimator) (g' : Estimator)
    → g.running ≡ true
    → client_round heap state_size qsort inputs packets g ≡ some r
    → client_rounds heap state_size qsort turns r.1 ≡ some g'
    → client_rounds heap state_size qsort ((inputs, packets) ∷ turns) g ≡ some g'
unfolding client_rounds
client_rounds-step heap state_size qsort inputs packets turns g r g' on e f =
    ap
      (λ b.
        if b
        then (client_round heap state_size qsort inputs packets g >>= λ x.
            client_rounds heap state_size qsort turns x.1)
        else some g)
      on
    ∙ ap (λ o. o >>= λ x. client_rounds heap state_size qsort turns x.1) e
    ∙ f

client_rounds-IsEstimator :
    (heap : Allocator)
    → GrowsInPlace heap
    → (state_size : ℕ) {qsort : (Event → Event → ℤ) → List Event → List Event} → IsQsort qsort
    → (turns : List Turn) (g : Estimator) (n : ℕ) → n + length turns < 2 ^ 29
    → All (λ turn. All IsServedPacket turn.1) turns
    → g.running ≡ true
    → IsEstimator g n
    → Returns
        (λ g'. IsEstimator g' (n + frames_played turns))
        (client_rounds heap state_size qsort turns g)
unfolding client_rounds
client_rounds-IsEstimator heap grows state_size q [] g n small h on w =
    (g, refl, subst (IsEstimator g) (omega arith) w)
client_rounds-IsEstimator heap grows state_size {qsort} q ((inputs, packets) ∷ turns) g n small
      (h, hs) on w =
    let (_, _, _, _, (r, e, d)) =
      client_round-EstimateDone heap grows state_size q n (omega arith) inputs packets g h w in
    let now : r.1.running ≡ (if closes inputs then false else true) =
      d.running ∙ ap (λ b. still_running b inputs) on ∙ runs_until_closed inputs in
    elim (Bool-cases (closes inputs)) [
      | inl c ↦
          let off : r.1.running ≡ false = now ∙ ap (λ b. if b then false else true) c in
          rw c (
            r.1,
            client_rounds-step heap state_size qsort inputs packets turns g r r.1 on e
                (client_rounds-stopped heap state_size qsort turns r.1 off),
            subst (IsEstimator r.1) (omega arith) d.next,
          )
      | inr c ↦
          let still : r.1.running ≡ true = now ∙ ap (λ b. if b then false else true) c in
          let (g', e', w') =
            client_rounds-IsEstimator heap grows state_size q turns r.1 (suc n) (omega arith) hs
              still d.next in
          rw c (
            g',
            client_rounds-step heap state_size qsort inputs packets turns g r g' on e e',
            subst (IsEstimator g') (omega arith) w',
          )
    ]

-- The dead-reckoning client, once it has a player's number, plays each frame up to the one in which
-- the window is closed, or all of fewer than 2^29 turns, if only valid states come from the server;
-- then it is in order, its estimate a well-formed state of a frame that it has reached. Memory does
-- not run out and blocks of events grow in place.
pub client_main-IsEstimator :
    (heap : Allocator)
    → GrowsInPlace heap
    → (state_size : ℕ) {qsort : (Event → Event → ℤ) → List Event → List Event} → IsQsort qsort
    → (stale player : ℤ) (turns : List Turn) → length turns < 2 ^ 29
    → All (λ turn. All IsServedPacket turn.1) turns
    → IsPlayer player
    → Returns
        (λ o. (g : Estimator) × (o ≡ some g) × IsEstimator g (frames_played turns))
        (client_main heap state_size qsort stale turns (handshake player))
unfolding client_main client_joined client_id initial_state
client_main-IsEstimator heap grows state_size {qsort} q stale player turns few h p =
    let (r, e, (w, on)) =
      client_start-IsEstimator heap grows state_size qsort (initial_state stale (pos 0)) player
        (initial_state-IsWellFormed stale (pos 0)).0 refl p in
    let (g, e', w') =
      client_rounds-IsEstimator heap grows state_size q turns r.1 0 (omega arith) h on w in
    rw (e, e') (some g, refl, (g, refl, subst (IsEstimator g) (omega arith) w'))
