-- ===== src/Vec/Runs.antt =====
-- The theorems about src/vec.c at concrete inputs.
use sasd_protocols.Prelude.{ℕ, [], ◌∷◌, ◌+◌, ◌/◌, ◌≤◌, ◌<◌, ◌≡◌, ◌⊎◌, none, true, Returns, arith}
use sasd_protocols.Buffer.Types.{Allocator, Realloc}
use sasd_protocols.Vec.Slots.{Slots, slots_set}
use sasd_protocols.Vec.Slots.Laws.{IsSlots, SetAt, slots_set-SetAt}
use sasd_protocols.Vec.{grow_count}
use sasd_protocols.Vec.Laws.{grow_count-Returns, grow_count-stuck}

grow_count-Returns_example :
    Returns
      (λ n. (1000 < n) × (10 ≤ n) × ((n ≤ 1000 + 1000 / 2) ⊎ (n ≡ 10)))
      (grow_count 992 1000 10)
grow_count-Returns_example =
    grow_count-Returns 992 1000 10 (omega arith) (omega arith) (omega arith) (omega arith)
      (omega arith)

grow_count-stuck_example : grow_count 5000 3 1 ≡ none
grow_count-stuck_example = grow_count-stuck 5000 3 1 (omega arith) (omega arith)

abbrev plenty : Allocator
plenty = record { malloc = λ n. true; realloc = λ n. Realloc.same }

-- Four numbers; the next index is behind them.
abbrev four : Slots ℕ
four = record { elem_size = 8; blank = 0; elems = 1 ∷ 2 ∷ 3 ∷ 4 ∷ [] }

four-IsSlots : IsSlots four
four-IsSlots = record { two = omega arith; short = omega arith; elem_small = omega arith }

slots_set-SetAt_example : Returns (SetAt four 9 7) (slots_set plenty four 9 7)
slots_set-SetAt_example =
    slots_set-SetAt plenty four 9 7 (λ n e. ground arith) four-IsSlots (omega arith)
