-- ===== src/Rollback/Loop/Start.antt =====
-- The game in front of the first round of the loop in src/game_timewarp.c and
-- src/game_fasteventordering.c.
use mathlib.Core.Path.{subst}
use sasd_protocols.Prelude.{
  ℕ, ◌+◌, ◌*◌, ◌^◌, ◌≤◌, ◌≡◌, refl, sym, ap, ◌∙◌, List, [], ◌∷◌, ◌++◌, ℤ, pos, Option, none, some,
  Returns, true, arith,
}
use sasd_protocols.Buffer.Types.{Allocator}
use sasd_protocols.Balls.Types.{State, Event, IsEvent, IsWellFormed}
use sasd_protocols.Vec.Slots.{Slots}
use sasd_protocols.Vec.Slots.Laws.{slots_set-SetAt, slots_create-IsSlots}
use sasd_protocols.Rollback.Cells.{Cell, absent, index}
use sasd_protocols.Rollback.Cells.Laws.{
  GrowsInPlace, GrowsInPlace-Reallocs, events_at, cell_events, IsCells, IsSound, open_new-Added,
}
use sasd_protocols.Rollback.Loop.{Game, Protocol, own_event, start}
use sasd_protocols.Rollback.Loop.Sorted.{index-pos}
use sasd_protocols.Rollback.Loop.Events.{IsTimed}
use sasd_protocols.Rollback.Loop.Synchronize.{IsReplayed}
use sasd_protocols.Rollback.Loop.Turns.{IsProtocol, own_frame, own_event-IsEvent}
use sasd_protocols.Rollback.Loop.Round.{IsRound}

abbrev game_at_one : State → Slots (Option State) → Slots Cell → Slots Cell → Game
game_at_one stat states event_trace event_buffer = record {
  running = true;
  stat = stat;
  state_trace = states;
  event_trace = event_trace;
  event_buffer = event_buffer;
  min_frame = pos 1;
  frame = pos 1;
}

-- A game that has just started is in order: the player's own connect event is known.
pub start-IsRound :
    (heap : Allocator)
    → GrowsInPlace heap
    → {qsort : (Event → Event → ℤ) → List Event → List Event}
    → (p : Protocol) (lag state_size : ℕ) (stat : State) → IsProtocol p lag
    → state_size ≤ 2 ^ 20
    → IsWellFormed stat
    → Returns
        (λ r.
          (r.0 ≡ own_event p (pos 1))
          × IsRound qsort stat r.1 0
          × (r.1.running ≡ true)
          × (events_at r.1.event_trace (1 + lag) ≡ own_event p (pos 1) ∷ []))
        (start heap qsort p state_size stat)
unfolding start own_event
start-IsRound heap grows {qsort} p lag state_size stat v small w =
    let reallocs = GrowsInPlace-Reallocs heap grows in
    let (states, q, (c, b, e)) =
      slots_create-IsSlots heap 512 state_size none (grows.grants (512 * state_size)) (omega arith)
        (omega arith) small in
    let (trace, q', (c', b', e')) =
      slots_create-IsSlots heap 512 8 absent (grows.grants (512 * 8)) (omega arith) (omega arith)
        (omega arith) in
    let (t, stored, set) = slots_set-SetAt heap states 0 (some stat) reallocs c (omega arith) in
    let cells : (P : Event → Type 0) → IsCells P trace = λ P. record {
      slots = c';
      blank_absent = b';
      sound = λ i. subst (IsSound P) (sym (e' i)) tt;
    } in
    let own = own_frame p lag 1 v (omega (arith, v.lag_small)) in
    let (r, pushed, (a, all)) =
      open_new-Added heap grows IsEvent trace (1 + lag) (cells IsEvent) (omega (arith, v.lag_small))
        (own_event p (pos 1) ∷ []) (own_event-IsEvent p lag 1 v (omega (arith, v.lag_small)), tt)
        (e' (1 + lag)) in
    let connect_at : index (own_event p (pos 1)).frame ≡ 1 + lag =
      ap index own ∙ index-pos (1 + lag) (omega (arith, v.lag_small)) in
    let at_zero : (j : ℕ) → j ≤ 0 → IsReplayed qsort stat (game_at_one stat t r.1 trace) j = λ j le.
      subst (IsReplayed qsort stat (game_at_one stat t r.1 trace)) (omega arith)
        (stat, set.here, refl, w) in
    rw (q, q', stored, connect_at, pushed)
      (
        (own_event p (pos 1), game_at_one stat t r.1 trace),
        refl,
        (
          refl,
          record {
            frame = refl;
            min_frame = refl;
            game = record {
              states = record { slots = set.valid; blank_none = set.same_blank ∙ b };
              cells = a.cells;
            };
            buffer = cells IsTimed;
            past = λ j le. at_zero j le;
            shown = set.here;
          },
          refl,
          a.here ∙ ap (λ c. cell_events c ++ (own_event p (pos 1) ∷ [])) (e' (1 + lag)),
        ),
      )
