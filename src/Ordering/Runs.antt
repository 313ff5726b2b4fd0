-- ===== src/Ordering/Runs.antt =====
-- Concrete runs, and the theorem about src/game_fasteventordering.c at its own table.
use sasd_protocols.Prelude.{
  ℕ, zero, suc, ◌<◌, ◌≡◌, refl, [], ◌∷◌, pos, ◌≤ℤ◌, ◌-ℤ◌, ◌+ℤ◌, some, arith,
}
use sasd_protocols.Prelude.Word.{signed, bits}
use sasd_protocols.Ordering.{
  Matrix, at, lags, compute_delays, try_from, difs, dif, max_loop, greater, min_of, min_loop,
  lesser, delay_table, delay,
}
use sasd_protocols.Ordering.Consistent.{compute_delays-consistent}
use sasd_protocols.Ordering.Difs.{IsTable}

three_clients :
    compute_delays lags 3
    ≡ some (
        (pos 60 ∷ pos 60 ∷ pos 30 ∷ [])
        ∷ (pos 60 ∷ pos 60 ∷ pos 30 ∷ [])
        ∷ (pos 30 ∷ pos 30 ∷ pos 0 ∷ [])
        ∷ [])
unfolding compute_delays try_from difs dif max_loop greater min_of min_loop lesser delay_table delay
    ◌-ℤ◌ ◌+ℤ◌ signed bits
three_clients = refl

lags-IsTable : IsTable 2 lags
lags-IsTable zero zero h k = omega arith
lags-IsTable zero (suc zero) h k = omega arith
lags-IsTable (suc zero) zero h k = omega arith
lags-IsTable (suc zero) (suc zero) h k = omega arith
lags-IsTable (suc (suc i)) j h k = absurd (omega arith)
lags-IsTable zero (suc (suc j)) h k = absurd (omega arith)
lags-IsTable (suc zero) (suc (suc j)) h k = absurd (omega arith)

compute_delays-consistent_example :
    (d : Matrix) × (compute_delays lags 2 ≡ some d)
    × ((j i : ℕ) → j < 2 → i < 2 → at lags j i ≤ℤ at d j i)
    × ((j j' i k : ℕ)
        → j < 2
        → j' < 2
        → i < 2
        → k < 2
        → at d j i -ℤ at d j k ≡ at d j' i -ℤ at d j' k)
compute_delays-consistent_example = compute_delays-consistent lags 2 (omega arith) lags-IsTable
