-- ===== src/Rollback/Loop/Turns.antt =====
-- The two halves of a round in src/game_timewarp.c and src/game_fasteventordering.c that come before
-- the loop "Synchronize": the own events, and those of the others.
use mathlib.Core.Path.{subst}
use native.Mathlib.Decide.{ℕ_discrete}
use sasd_protocols.Prelude.{
  ℕ, suc, ◌+◌, ◌-◌, ◌^◌, ◌≤◌, ◌<◌, ◌≡◌, refl, sym, ap, ◌∙◌, List, [], ◌++◌, append-nil, ℤ, pos,
  ◌≤ℤ◌, ◌+ℤ◌, some, ◌==◌, if◌then◌else◌, ne→==_false, ==_iff, All, Returns, arith,
}
use sasd_protocols.Prelude.Word.{signed-bits_32}
use sasd_protocols.Packets.Serialize.Whole.{pos-add}
use sasd_protocols.Buffer.Types.{Allocator}
use sasd_protocols.Balls.Types.{State, Event, IsEvent, max_players}
use sasd_protocols.Balls.Collide.{i32}
use sasd_protocols.Balls.Sorting.{IsQsort}
use sasd_protocols.Packets.Types.{Packet}
use sasd_protocols.Vec.Slots.Laws.{element, slots_set-SetAt}
use sasd_protocols.Rollback.Cells.Laws.{
  GrowsInPlace, GrowsInPlace-Reallocs, events_at, IsCells, add_events-Added,
}
use sasd_protocols.Rollback.Keys.{Input, key_events, still_running}
use sasd_protocols.Rollback.Loop.{Game, Protocol, own_event, of_player, own_turn, others_turn}
use sasd_protocols.Rollback.Loop.Sorted.{index-pos, events_in_lem}
use sasd_protocols.Rollback.Loop.Events.{IsTimed, at_frame, apply_all-Applied}
use sasd_protocols.Rollback.Loop.Arrivals.{
  IsReceived, arrivals, receive_all-Arrived, key_events-IsEvent,
}
use sasd_protocols.Rollback.Loop.Synchronize.{IsGame, IsCells-events}

-- A player of the game, and a small lag for its own events.
pub record IsProtocol (p : Protocol) (lag : ℕ) : Type 0 where
  pub has_lag : p.own_lag ≡ pos lag
  pub lag_small : lag ≤ 2 ^ 20
  pub player_low : pos 0 ≤ℤ p.player
  pub player_high : p.player ≤ℤ pos (max_players - 1)

pub own_frame :
    (p : Protocol) (lag f : ℕ)
    → IsProtocol p lag
    → f + lag < 2 ^ 30
    → i32 (pos f +ℤ p.own_lag) ≡ pos (f + lag)
own_frame p lag f v small =
    ap (λ z. i32 (pos f +ℤ z)) v.has_lag
    ∙ rw (pos-add f lag) (signed-bits_32 (pos (f + lag)) (omega arith, omega arith))

pub own_event-IsEvent :
    (p : Protocol) (lag f : ℕ) → IsProtocol p lag → f + lag < 2 ^ 30 → IsEvent (own_event p (pos f))
unfolding own_event
own_event-IsEvent p lag f v small =
    let e = own_frame p lag f v small in
    record {
      player_low = v.player_low;
      player_high = v.player_high;
      frame_low = rw e (omega arith);
      frame_high = rw e (omega arith);
      button_low = omega arith;
      button_high = omega arith;
      pressed_low = omega arith;
      pressed_high = omega arith;
    }

-- The own events that a round puts at frame `k`.
abbrev pub own_at : Protocol → ℕ → ℕ → List Input → ℕ → List Event
own_at p lag f inputs k = if k == f + lag then key_events (own_event p (pos f)) inputs else []

module _ (heap : Allocator) (grows : GrowsInPlace heap)
    {qsort : (Event → Event → ℤ) → List Event → List Event} (q : IsQsort qsort) (s0 : State)
    (p : Protocol) (lag : ℕ) (v : IsProtocol p lag) (n : ℕ) (small : n < 2 ^ 29) where
  -- After the first half of a round.
  pub record OwnTurn (inputs : List Input) (g : Game) (r : List Event × Game) : Type 0 where
    pub sent :
        r.0
        ≡ of_player p.player
            (events_at g.event_trace (suc n + lag) ++ key_events (own_event p (pos (suc n))) inputs)
    pub running : r.1.running ≡ still_running g.running inputs
    pub same_frame : r.1.frame ≡ g.frame
    pub same_min : r.1.min_frame ≡ g.min_frame
    pub same_buffer : r.1.event_buffer ≡ g.event_buffer
    pub game : IsGame r.1
    pub states : (j : ℕ) → j ≤ n → element r.1.state_trace j ≡ element g.state_trace j
    pub events :
        (k : ℕ)
        → events_at r.1.event_trace k ≡ events_at g.event_trace k ++ own_at p lag (suc n) inputs k

  pub own_turn_lem :
      (inputs : List Input) (g : Game)
      → IsGame g
      → g.frame ≡ pos (suc n)
      → Returns (OwnTurn inputs g) (own_turn heap qsort p inputs g)
  unfolding own_turn
  own_turn_lem inputs g w at =
      let reallocs = GrowsInPlace-Reallocs heap grows in
      let (t, stored, set) =
        slots_set-SetAt heap g.state_trace (suc n) (some g.stat) reallocs w.states.slots
          (omega arith) in
      let keys = key_events (own_event p (pos (suc n))) inputs in
      let valid =
        key_events-IsEvent (own_event p (pos (suc n))) inputs
          (own_event-IsEvent p lag (suc n) v (omega (arith, v.lag_small))) in
      let (r, added, (a, all)) =
        add_events-Added heap grows IsEvent g.event_trace (suc n + lag) w.cells
          (omega (arith, v.lag_small)) keys valid in
      rw
        (
          at,
          own_frame p lag (suc n) v (omega (arith, v.lag_small)),
          index-pos (suc n) (omega arith),
          index-pos (suc n + lag) (omega (arith, v.lag_small)),
          stored,
          added,
        )
        (
          (
            of_player p.player r.0.evs,
            record g {
              running = still_running g.running inputs;
              state_trace = t;
              event_trace = r.1;
              frame = pos (suc n);
            },
          ),
          refl,
          record {
            sent = ap (of_player p.player) all;
            running = refl;
            same_frame = refl;
            same_min = refl;
            same_buffer = refl;
            game = record {
              states = record {
                slots = set.valid;
                blank_none = set.same_blank ∙ w.states.blank_none;
              };
              cells = a.cells;
            };
            states = λ j le. set.elsewhere j (λ e. absurd (omega arith));
            events = λ k. elim (ℕ_discrete k (suc n + lag)) [
              | yes e ↦
                  rw ((==_iff k (suc n + lag)).1 e) (
                    subst (λ x. events_at r.1 x ≡ events_at g.event_trace x ++ keys) (sym e) a.here)
              | no ne ↦
                  rw (ne→==_false k (suc n + lag) ne)
                    (a.elsewhere k ne ∙ sym (append-nil (events_at g.event_trace k)))
            ];
          },
        )

  -- After the second half: from frame `k + 1` on, the states have to be computed again.
  pub record OthersTurn (packets : List Packet) (g : Game) (g' : Game) : Type 0 where
    pub behind : ℕ
    pub late : ℕ
    pub adds_up : behind + late ≡ n
    pub min_frame : g'.min_frame ≡ pos (suc behind)
    pub same_running : g'.running ≡ g.running
    pub same_frame : g'.frame ≡ g.frame
    pub same_states : g'.state_trace ≡ g.state_trace
    pub cells : IsCells IsEvent g'.event_trace
    pub buffer : IsCells IsTimed g'.event_buffer
    pub waiting :
        (k : ℕ)
        → events_at g'.event_buffer k
          ≡ events_at g.event_buffer k ++ arrivals p (pos (suc n)) k packets
    pub events :
        (k : ℕ)
        → events_at g'.event_trace k
          ≡ events_at g.event_trace k ++ at_frame k (events_at g'.event_buffer (suc n))
    pub none_before : (k : ℕ) → k ≤ behind → at_frame k (events_at g'.event_buffer (suc n)) ≡ []

  pub others_turn_lem :
      (packets : List Packet) (g : Game)
      → IsGame g
      → IsCells IsTimed g.event_buffer
      → All (IsReceived p) packets
      → g.frame ≡ pos (suc n)
      → g.min_frame ≡ pos (suc n)
      → Returns (OthersTurn packets g) (others_turn heap qsort p packets g)
  unfolding others_turn
  others_turn_lem packets g w c rs at at_min =
      let (b, received, arrived) =
        receive_all-Arrived heap grows p (suc n) (omega arith) g.event_buffer packets c rs in
      let timed = IsCells-events IsTimed b arrived.cells (suc n) in
      let (r, applied, (m, e, a)) =
        apply_all-Applied heap grows p (events_at b (suc n)) g.event_trace (suc n) timed w.cells
          (omega arith) in
      rw
        (
          at,
          at_min,
          received,
          index-pos (suc n) (omega arith),
          events_in_lem arrived.cells (suc n),
          applied,
        )
        (
          record g { event_trace = r.0; event_buffer = b; min_frame = r.1; frame = pos (suc n) },
          refl,
          record {
            behind = m - 1;
            late = suc n - m;
            adds_up = omega (arith, a.positive, a.below);
            min_frame = e ∙ ap pos (let x : m ≡ suc (m - 1) = omega (arith, a.positive) in x);
            same_running = refl;
            same_frame = refl;
            same_states = refl;
            cells = a.cells;
            buffer = arrived.cells;
            waiting = arrived.added;
            events = a.added;
            none_before = λ k le. a.earliest k (omega (arith, a.positive));
          },
        )
