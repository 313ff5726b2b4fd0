-- ===== src/DeadReckoning/Client/Estimate.antt =====
-- The estimate of src/game_deadreckoning.c against its specification: from a state on, one frame
-- after the other with the own events that are due.
use mathlib.Core.List.{Perm}
use mathlib.Core.List.Perm
use sasd_protocols.Prelude.{
  ℕ, zero, suc, ◌+◌, ◌-◌, ◌^◌, ◌≤◌, ◌<◌, ◌≡◌, ◌⊎◌, inl, inr, refl, ap, ◌∙◌, List, [], ℤ, pos,
  negsuc, ◌+ℤ◌, ◌-ℤ◌, Option, some, ◌>>=◌, leb, Bool-cases, if◌then◌else◌, All, Returns, arith,
  le→leb, lt→leb_false,
}
use sasd_protocols.Prelude.Word.{signed-bits_32}
use sasd_protocols.Balls.Types.{State, Event, IsEvent, IsWellFormed}
use sasd_protocols.Balls.Collide.{i32}
use sasd_protocols.Balls.Sorting.{IsQsort, IsEvent-prop}
use sasd_protocols.Balls.Advance.Total.{IsNext, advance_state-Returns}
use sasd_protocols.Balls.Advance.Alike.{next_state, next_state-perm}
use sasd_protocols.Vec.Slots.{Slots, slots_get}
use sasd_protocols.Rollback.Cells.{Cell}
use sasd_protocols.Rollback.Cells.Laws.{IsCells, events_at}
use sasd_protocols.Rollback.Loop.{left_sorted}
use sasd_protocols.Rollback.Loop.Sorted.{i32-suc, events_in_lem, left_sorted_lem}
use sasd_protocols.Rollback.Loop.Synchronize.{IsCells-events}
use sasd_protocols.Rollback.Replay.{>>=_ext}
use sasd_protocols.DeadReckoning.Client.{advance_at, go_on}

-- The state after so many frames from frame `i` on, with the events of each frame.
abbrev pub predict :
    ((Event → Event → ℤ) → List Event → List Event)
    → (ℕ → List Event)
    → ℕ
    → ℕ
    → State
    → Option State
predict qsort evs zero i s = some s
predict qsort evs (suc rounds) i s =
    next_state qsort s (evs i) >>= λ s'. predict qsort evs rounds (suc i) s'

-- The own events that are due at a frame: those of the frame before the lag, if there was one.
abbrev pub own_due : ℕ → Slots Cell → ℕ → List Event
own_due lag t i = if leb lag i then events_at t (i - lag) else []

pub predict-perm :
    {qsort : (Event → Event → ℤ) → List Event → List Event} (evs evs' : ℕ → List Event)
    → IsQsort qsort
    → ((k : ℕ) → All IsEvent (evs k))
    → ((k : ℕ) → Perm (evs k) (evs' k))
    → (rounds i : ℕ) (s : State) → predict qsort evs rounds i s ≡ predict qsort evs' rounds i s
predict-perm evs evs' q valid p zero i s = refl
predict-perm {qsort} evs evs' q valid p (suc rounds) i s =
    ap (λ o. o >>= λ s'. predict qsort evs rounds (suc i) s')
      (next_state-perm s (evs i) (evs' i) q q (valid i) (p i))
    ∙ >>=_ext (next_state qsort s (evs' i)) _ _
        λ s'. predict-perm evs evs' q valid p rounds (suc i) s'

pub own_due-perm :
    (lag : ℕ) (t t' : Slots Cell)
    → ((k : ℕ) → Perm (events_at t k) (events_at t' k))
    → (i : ℕ) → Perm (own_due lag t i) (own_due lag t' i)
own_due-perm lag t t' p i = elim (Bool-cases (leb lag i)) [
  | inl e ↦ rw e (p (i - lag))
  | inr e ↦ rw e (Perm.refl [])
]

pub own_due-IsEvent :
    (lag : ℕ) (t : Slots Cell) → IsCells IsEvent t → (i : ℕ) → All IsEvent (own_due lag t i)
own_due-IsEvent lag t c i = elim (Bool-cases (leb lag i)) [
  | inl e ↦ rw e (IsCells-events IsEvent t c (i - lag))
  | inr e ↦ rw e tt
]

back_cases :
    (i lag : ℕ)
    → ((lag ≤ i) × (pos i -ℤ pos lag ≡ pos (i - lag)))
      ⊎ ((i < lag) × (pos i -ℤ pos lag ≡ negsuc (lag - suc i)))
unfolding ◌-ℤ◌ ◌+ℤ◌
back_cases i lag = ground arith

-- What a frame of the estimate leaves: the next state, and the same events.
abbrev Advanced :
    ((Event → Event → ℤ) → List Event → List Event)
    → List Event
    → State
    → Slots Cell
    → State × Slots Cell
    → Type 0
Advanced qsort evs s t r =
    (next_state qsort s evs ≡ some r.0)
    × IsNext s r.0
    × IsCells IsEvent r.1
    × ((k : ℕ) → Perm (events_at r.1 k) (events_at t k))

module _ {qsort : (Event → Event → ℤ) → List Event → List Event} (q : IsQsort qsort) where
  advance_at-Returns :
      (i lag : ℕ) (s : State) (t : Slots Cell)
      → i < 2 ^ 30
      → lag ≤ 2 ^ 20
      → IsCells IsEvent t
      → IsWellFormed s
      → Returns
          (Advanced qsort (own_due lag t i) s t)
          (advance_at qsort (i32 (pos i -ℤ pos lag)) (s, t))
  unfolding advance_at
  advance_at-Returns i lag s t small lag_small c w = elim (back_cases i lag) [
    | inl (le, e) ↦
        let back : i32 (pos i -ℤ pos lag) ≡ pos (i - lag) =
          ap i32 e ∙ signed-bits_32 (pos (i - lag)) (omega arith, omega arith) in
        let (r, advanced, (next, perm)) =
          advance_state-Returns s (events_at t (i - lag)) q (IsCells-events IsEvent t c (i - lag))
            w in
        let (cells, perms) = left_sorted_lem c IsEvent-prop (i - lag) r.1 perm in
        rw (back, le→leb lag i le, events_in_lem c (i - lag), advanced)
          (
            (r.0, left_sorted t (i - lag) (slots_get t (i - lag)) r.1),
            refl,
            (refl, next, cells, perms),
          )
    | inr (lt, e) ↦
        let back : i32 (pos i -ℤ pos lag) ≡ negsuc (lag - suc i) =
          ap i32 e ∙ signed-bits_32 (negsuc (lag - suc i)) (omega arith, omega arith) in
        let (r, advanced, (next, perm)) = advance_state-Returns s [] q tt w in
        rw (back, lt→leb_false lag i lt, advanced)
          ((r.0, t), refl, (refl, next, c, λ k. Perm.refl (events_at t k)))
  ]

  -- So many rounds of "Synchronize" from the frame of a state on give what the specification gives.
  pub go_on-predict :
      (rounds i lag : ℕ) (s : State) (t : Slots Cell)
      → i + rounds < 2 ^ 30
      → lag ≤ 2 ^ 20
      → IsCells IsEvent t
      → IsWellFormed s
      → s.frame ≡ pos i
      → Returns
          (λ r.
            (predict qsort (own_due lag t) rounds i s ≡ some r.0)
            × IsWellFormed r.0
            × (r.0.frame ≡ pos (i + rounds))
            × IsCells IsEvent r.1
            × ((k : ℕ) → Perm (events_at r.1 k) (events_at t k)))
          (go_on qsort rounds (pos i) (pos lag) (s, t))
  unfolding go_on
  go_on-predict zero i lag s t small lag_small c w at = (
    (s, t),
    refl,
    (
      refl,
      w,
      at ∙ ap pos (let e : i ≡ i + 0 = omega arith in e),
      c,
      λ k. Perm.refl (events_at t k),
    ),
  )
  go_on-predict (suc rounds) i lag s t small lag_small c w at =
      let (r, e, (next, n, c', perms)) = advance_at-Returns i lag s t (omega arith) lag_small c w in
      let at' : r.0.frame ≡ pos (suc i) =
        n.one_on ∙ ap (λ z. i32 (z +ℤ pos 1)) at ∙ i32-suc i (omega arith) in
      let (r', e', (predicted, w'', at'', c'', perms')) =
        go_on-predict rounds (suc i) lag r.0 r.1 (omega arith) lag_small c' n.well_formed at' in
      let same =
        predict-perm (own_due lag t) (own_due lag r.1) q (own_due-IsEvent lag t c)
          (own_due-perm lag t r.1 λ k. Perm.symm (perms k)) rounds (suc i) r.0 in
      rw (e, i32-suc i (omega arith))
        (
          r',
          e',
          (
            ap (λ o. o >>= λ s'. predict qsort (own_due lag t) rounds (suc i) s') next
                ∙ same
                ∙ predicted,
            w'',
            at'' ∙ ap pos (let e : suc i + rounds ≡ i + suc rounds = omega arith in e),
            c'',
            λ k. Perm.trans (perms' k) (perms k),
          ),
        )
