-- ===== src/Rollback/Replay.antt =====
-- What a rollback is measured against: the states computed from the first one by the events of each
-- frame, with no trace.
use mathlib.Core.List.{Perm}
use mathlib.Core.Option
use sasd_protocols.Prelude.{
  ℕ, zero, suc, ◌≤◌, ◌≡◌, refl, ap, ◌∙◌, List, ℤ, Option, none, some, ◌>>=◌, All, arith,
}
use sasd_protocols.Balls.Types.{State, Event, IsEvent, IsWellFormed}
use sasd_protocols.Balls.Sorting.{IsQsort}
use sasd_protocols.Balls.Advance.{advance_state}
use sasd_protocols.Balls.Advance.Alike.{next_state}
use sasd_protocols.Balls.Advance.Same.{SameEvents, reordered, next_state-SameEvents}
use sasd_protocols.Balls.Advance.Total.{advance_state-Returns}

-- The state at a frame, from the state at frame 0 and the events of each frame.
abbrev pub replay :
    ((Event → Event → ℤ) → List Event → List Event) → State → (ℕ → List Event) → ℕ → Option State
replay qsort s0 evs zero = some s0
replay qsort s0 evs (suc n) = replay qsort s0 evs n >>= λ s. next_state qsort s (evs (suc n))

-- To go on in equal ways from a result is to get equal results.
pub >>=_ext :
    {A B : Type 0} (o : Option A) (f g : A → Option B)
    → ((a : A) → f a ≡ g a)
    → (o >>= f) ≡ (o >>= g)
>>=_ext none f g h = refl
>>=_ext (some a) f g h = h a

-- Events that come in another order, or more than once, make no difference to the replay.
pub replay-SameEvents :
    {qsort qsort' : (Event → Event → ℤ) → List Event → List Event} (s0 : State)
    (evs evs' : ℕ → List Event)
    → IsQsort qsort
    → IsQsort qsort'
    → ((k : ℕ) → All IsEvent (evs k))
    → (n : ℕ) → ((k : ℕ) → k ≤ n → SameEvents (evs k) (evs' k))
    → replay qsort s0 evs n ≡ replay qsort' s0 evs' n
replay-SameEvents s0 evs evs' q q' valid zero p = refl
replay-SameEvents {qsort} {qsort'} s0 evs evs' q q' valid (suc n) p =
    ap (λ o. o >>= λ s. next_state qsort s (evs (suc n)))
      (replay-SameEvents s0 evs evs' q q' valid n λ k h. p k (omega arith))
    ∙ >>=_ext (replay qsort' s0 evs' n) _ _ λ s.
      next_state-SameEvents s (evs (suc n)) (evs' (suc n)) q q' (valid (suc n))
        (p (suc n) (omega arith))

pub replay-perm :
    {qsort qsort' : (Event → Event → ℤ) → List Event → List Event} (s0 : State)
    (evs evs' : ℕ → List Event)
    → IsQsort qsort
    → IsQsort qsort'
    → ((k : ℕ) → All IsEvent (evs k))
    → (n : ℕ) → ((k : ℕ) → k ≤ n → Perm (evs k) (evs' k))
    → replay qsort s0 evs n ≡ replay qsort' s0 evs' n
replay-perm s0 evs evs' q q' valid n p =
    replay-SameEvents s0 evs evs' q q' valid n λ k le. reordered (p k le)

-- A well-formed state has a well-formed next one.
pub next_state-Returns :
    {qsort : (Event → Event → ℤ) → List Event → List Event} (s : State) (evs : List Event)
    → IsQsort qsort
    → All IsEvent evs
    → IsWellFormed s
    → (r : State × List Event) × (advance_state qsort s evs ≡ some r)
      × (next_state qsort s evs ≡ some r.0)
      × IsWellFormed r.0
      × Perm r.1 evs
next_state-Returns s evs q h w =
    let (r, e, (n, p)) = advance_state-Returns s evs q h w in
    (r, e, ap (Option.map λ r. r.0) e, n.well_formed, p)

-- A replay looks at no frame behind its own.
pub replay_same :
    (qsort : (Event → Event → ℤ) → List Event → List Event) (s0 : State) (evs evs' : ℕ → List Event)
    (n : ℕ)
    → ((k : ℕ) → k ≤ n → evs k ≡ evs' k)
    → replay qsort s0 evs n ≡ replay qsort s0 evs' n
replay_same qsort s0 evs evs' zero h = refl
replay_same qsort s0 evs evs' (suc n) h =
    ap (λ o. o >>= λ s. next_state qsort s (evs (suc n)))
      (replay_same qsort s0 evs evs' n λ k le. h k (omega arith))
    ∙ ap (λ l. replay qsort s0 evs' n >>= λ s. next_state qsort s l) (h (suc n) (omega arith))
