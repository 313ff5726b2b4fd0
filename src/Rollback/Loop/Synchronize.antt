-- ===== src/Rollback/Loop/Synchronize.antt =====
-- The loop "Synchronize" of src/game_timewarp.c and src/game_fasteventordering.c: it makes the
-- states of the trace those of a replay.
use mathlib.Core.List.{Perm}
use mathlib.Core.List.Perm
use mathlib.Core.Path.{subst}
use native.Mathlib.Decide.{ℕ_discrete}
use sasd_protocols.Prelude.{
  ℕ, zero, suc, ◌+◌, ◌^◌, ◌≤◌, ◌<◌, ◌≡◌, inl, inr, refl, sym, ap, ◌∙◌, List, ℤ, pos, none, some,
  ◌>>=◌, All, Returns, arith,
}
use sasd_protocols.Buffer.Types.{Allocator}
use sasd_protocols.Balls.Types.{State, Event, IsEvent, IsWellFormed}
use sasd_protocols.Balls.Sorting.{IsQsort, IsEvent-prop}
use sasd_protocols.Balls.Advance.Alike.{next_state}
use sasd_protocols.Vec.Slots.{Slots, slots_get}
use sasd_protocols.Vec.Slots.Laws.{element, slots_set-SetAt, slots_get_cases}
use sasd_protocols.Rollback.Cells.{Cell}
use sasd_protocols.Rollback.Cells.Laws.{
  GrowsInPlace, GrowsInPlace-Reallocs, events_at, IsSound, cell_events, IsCells,
}
use sasd_protocols.Rollback.Loop.{Game, left_sorted, state_before, synchronize_one, synchronize}
use sasd_protocols.Rollback.Loop.Sorted.{
  IsStates, index-pos, i32-suc, i32_pred, events_in_lem, left_sorted_lem,
}
use sasd_protocols.Rollback.Replay.{replay, replay-perm, next_state-Returns}

-- The vectors of a game are in order: states and blocks of valid events.
pub record IsGame (g : Game) : Type 0 where
  pub states : IsStates g.state_trace
  pub cells : IsCells IsEvent g.event_trace

-- What the loop leaves alone; the events of a frame may change their order.
pub record Kept (g g' : Game) : Type 0 where
  pub events : (j : ℕ) → Perm (events_at g'.event_trace j) (events_at g.event_trace j)
  pub same_buffer : g'.event_buffer ≡ g.event_buffer
  pub same_frame : g'.frame ≡ g.frame
  pub same_running : g'.running ≡ g.running

pub Kept-refl : (g : Game) → Kept g g
Kept-refl g = record {
  events = λ j. Perm.refl (events_at g.event_trace j);
  same_buffer = refl;
  same_frame = refl;
  same_running = refl;
}

pub Kept-compose : (g g' g'' : Game) → Kept g g' → Kept g' g'' → Kept g g''
Kept-compose g g' g'' a b = record {
  events = λ j. Perm.trans (b.events j) (a.events j);
  same_buffer = b.same_buffer ∙ a.same_buffer;
  same_frame = b.same_frame ∙ a.same_frame;
  same_running = b.same_running ∙ a.same_running;
}

pub IsCells-events :
    (P : Event → Type 0) (s : Slots Cell) → IsCells P s → (i : ℕ) → All P (events_at s i)
IsCells-events P s c i = of_cell (element s i) (c.sound i)
  where
    of_cell : (x : Cell) → IsSound P x → All P (cell_events x)
    of_cell Cell.absent h = tt
    of_cell (Cell.block v) h = h
    of_cell Cell.dangling h = absurd h

-- The trace has at frame `k` the state that a replay of the events of the trace gives.
abbrev pub IsReplayed : ((Event → Event → ℤ) → List Event → List Event) → State → Game → ℕ → Type 0
IsReplayed qsort s0 g k =
    (s : State) × (element g.state_trace k ≡ some s)
    × (replay qsort s0 (events_at g.event_trace) k ≡ some s)
    × IsWellFormed s

module _ (heap : Allocator) (grows : GrowsInPlace heap)
    {qsort : (Event → Event → ℤ) → List Event → List Event} (q : IsQsort qsort) (s0 : State) where
  state_before_lem :
      (g : Game) (k : ℕ) (s : State)
      → IsStates g.state_trace
      → element g.state_trace k ≡ some s
      → state_before g.stat (slots_get g.state_trace k) ≡ some s
  unfolding state_before
  state_before_lem g k s v e = elim (slots_get_cases g.state_trace k) [
    | inl (inside, f) ↦ rw (f, e) refl
    | inr (f, b) ↦ absurd (let c : some s ≡ none = sym e ∙ b ∙ v.blank_none in ground arith)
  ]

  -- A round at frame `k + 1` carries the replay on by a frame.
  synchronize_one-Returns :
      (g : Game) (k : ℕ)
      → IsGame g
      → suc k < 2 ^ 30
      → ((j : ℕ) → j ≤ k → IsReplayed qsort s0 g j)
      → Returns
          (λ g'.
            IsGame g'
            × Kept g g'
            × ((j : ℕ) → j ≤ suc k → IsReplayed qsort s0 g' j)
            × (element g'.state_trace (suc k) ≡ some g'.stat))
          (synchronize_one heap qsort (pos (suc k)) g)
  unfolding synchronize_one
  synchronize_one-Returns g k v small past =
      let (s, at_k, of_k, w) = past k (omega arith) in
      let evs = events_at g.event_trace (suc k) in
      let valid = IsCells-events IsEvent g.event_trace v.cells (suc k) in
      let (r, advanced, next, well_formed, perm) = next_state-Returns s evs q valid w in
      let (t, stored, set) =
        slots_set-SetAt heap g.state_trace (suc k) (some r.0) (GrowsInPlace-Reallocs heap grows)
          v.states.slots (omega arith) in
      let (cells, perms) = left_sorted_lem v.cells IsEvent-prop (suc k) r.1 perm in
      let g' : Game = record g {
        stat = r.0;
        state_trace = t;
        event_trace = left_sorted g.event_trace (suc k) (slots_get g.event_trace (suc k)) r.1;
      } in
      let same : (j : ℕ)
          → replay qsort s0 (events_at g'.event_trace) j
            ≡ replay qsort s0 (events_at g.event_trace) j =
        λ j.
          replay-perm s0 (events_at g'.event_trace) (events_at g.event_trace) q q
            (IsCells-events IsEvent g'.event_trace cells) j λ i _. perms i in
      let carried : replay qsort s0 (events_at g.event_trace) (suc k) ≡ some r.0 =
        ap (λ o. o >>= λ s. next_state qsort s evs) of_k ∙ next in
      rw
        (
          i32_pred k (omega arith),
          index-pos k (omega arith),
          index-pos (suc k) (omega arith),
          state_before_lem g k s v.states at_k,
          events_in_lem v.cells (suc k),
          advanced,
          stored,
        )
        (
          g',
          refl,
          (
            record {
              states = record {
                slots = set.valid;
                blank_none = set.same_blank ∙ v.states.blank_none;
              };
              cells = cells;
            },
            record { events = perms; same_buffer = refl; same_frame = refl; same_running = refl },
            (λ j le. elim (ℕ_discrete j (suc k)) [
              | yes e ↦ rw e (r.0, set.here, same (suc k) ∙ carried, well_formed)
              | no ne ↦
                  let (s', a, b, w') = past j (omega arith) in
                  (s', set.elsewhere j ne ∙ a, same j ∙ b, w')
            ]),
            set.here,
          ),
        )

  -- The whole loop, from frame `k + 1` on: from a past up to `k` that is that of a replay it makes
  -- one up to the last frame. The events may change their order in a frame.
  pub synchronize-Returns :
      (rounds : ℕ) (g : Game) (k : ℕ)
      → IsGame g
      → suc k + rounds < 2 ^ 30
      → ((j : ℕ) → j ≤ k → IsReplayed qsort s0 g j)
      → Returns
          (λ g'.
            IsGame g'
            × Kept g g'
            × ((j : ℕ) → j ≤ suc k + rounds → IsReplayed qsort s0 g' j)
            × (element g'.state_trace (suc k + rounds) ≡ some g'.stat))
          (synchronize heap qsort (suc rounds) (pos (suc k)) g)
  unfolding synchronize
  synchronize-Returns zero g k v small past =
      let (g', e, (v', kept, past', now')) = synchronize_one-Returns g k v (omega arith) past in
      rw e (
        g',
        refl,
        (
          v',
          kept,
          (λ j le. past' j (omega arith)),
          subst (λ m. element g'.state_trace m ≡ some g'.stat) (omega arith) now',
        ),
      )
  synchronize-Returns (suc rounds) g k v small past =
      let (g', e, (v', kept, past', now')) = synchronize_one-Returns g k v (omega arith) past in
      let (g'', e', (v'', kept', past'', now'')) =
        synchronize-Returns rounds g' (suc k) v' (omega arith) past' in
      rw (e, i32-suc (suc k) (omega arith))
        (
          g'',
          e',
          (
            v'',
            Kept-compose g g' g'' kept kept',
            (λ j le. past'' j (omega arith)),
            subst (λ m. element g''.state_trace m ≡ some g''.stat) (omega arith) now'',
          ),
        )
