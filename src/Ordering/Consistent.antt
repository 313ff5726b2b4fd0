-- ===== src/Ordering/Consistent.antt =====
-- What the delays that `compute_delays` finds are good for.
use sasd_protocols.Prelude.{
  ℕ, zero, suc, ◌+◌, ◌<◌, ◌≡◌, refl, ap, ◌∙◌, List, [], ◌∷◌, get_or, ℤ, pos, ◌≤ℤ◌, ◌-ℤ◌, +ℤ_parts,
  -ℤ_parts, length, ==_iff, some, arith,
}
use native.Mathlib.Nat.{zero-add}
use sasd_protocols.Ordering.{
  Matrix, at, fill_from, lesser, dif, difs, delay_table, min_loop, min_of, try_from, compute_delays,
}
use sasd_protocols.Ordering.Difs.{
  IsTable, get_or-fill_from, lesser_lem, le→ltb_ℤ_false, same_difference, dif-ge, at-delay_table,
}

min_loop-le :
    (ds : List ℤ) (m : ℤ)
    → (min_loop ds m ≤ℤ m) × ((k : ℕ) → k < length ds → min_loop ds m ≤ℤ get_or ds k (pos 0))
unfolding min_loop
min_loop-le [] m = (omega arith, λ k h. absurd (omega arith))
min_loop-le (d ∷ ds) m =
    let (a, b) = min_loop-le ds (lesser m d) in
    (omega (arith, a, lesser_lem m d), λ k h. below k h a b)
  where
    below :
        (k : ℕ)
        → k < length (d ∷ ds)
        → min_loop ds (lesser m d) ≤ℤ lesser m d
        → ((k : ℕ) → k < length ds → min_loop ds (lesser m d) ≤ℤ get_or ds k (pos 0))
        → min_loop ds (lesser m d) ≤ℤ get_or (d ∷ ds) k (pos 0)
    below zero h a b = omega (arith, a, lesser_lem m d)
    below (suc k) h a b = b k (omega arith)

min_of-le : (ds : List ℤ) (k : ℕ) → k < length ds → min_of ds ≤ℤ get_or ds k (pos 0)
unfolding min_of
min_of-le [] k h = absurd (omega arith)
min_of-le (d ∷ ds) zero h = (min_loop-le ds d).0
min_of-le (d ∷ ds) (suc k) h = (min_loop-le ds d).1 k (omega arith)

length-fill_from : {A : Type 0} (n i : ℕ) (f : ℕ → A) → length (fill_from n i f) ≡ n
length-fill_from zero i f = refl
length-fill_from (suc n) i f = ap suc (length-fill_from n (i + 1) f)

dif-ref : (table : Matrix) (n p_ref : ℕ) → dif table n p_ref p_ref ≡ pos 0
unfolding dif
dif-ref table n p_ref = rw ((==_iff p_ref p_ref).1 refl)

get_or-difs :
    (table : Matrix) (n p_ref k : ℕ)
    → k < n
    → get_or (difs table n p_ref) k (pos 0) ≡ dif table n p_ref k
unfolding difs
get_or-difs table n p_ref k h =
    get_or-fill_from n 0 k (dif table n p_ref) (pos 0) h ∙ ap (dif table n p_ref) (zero-add k)

length-difs : (table : Matrix) (n p_ref : ℕ) → length (difs table n p_ref) ≡ n
unfolding difs
length-difs table n p_ref = length-fill_from n 0 (dif table n p_ref)

-- The reference's own difference is 0, so the first reference that is tried, the last client, is
-- taken: the algorithm does not go on to another, and does not fail.
pub first_reference :
    (table : Matrix) (m : ℕ)
    → compute_delays table (suc m) ≡ some (delay_table table (suc m) (difs table (suc m) m) m)
unfolding compute_delays try_from
first_reference table m = rw (le→ltb_ℤ_false (min_of (difs table (suc m) m)) smallest)
  where
    smallest : min_of (difs table (suc m) m) ≤ℤ pos 0
    smallest =
        rw (get_or-difs table (suc m) m m (omega arith), dif-ref table (suc m) m) at
          (min_of-le (difs table (suc m) m) m (rw (length-difs table (suc m) m) (omega arith)))

-- For at least one client, and lags that are not negative and not huge, `compute_delays` succeeds.
-- No event is due at a client before it can arrive there, and any two clients see the events of
-- two clients with the same spacing.
pub compute_delays-consistent :
    (table : Matrix) (n : ℕ)
    → 0 < n
    → IsTable n table
    → (d : Matrix) × (compute_delays table n ≡ some d)
      × ((j i : ℕ) → j < n → i < n → at table j i ≤ℤ at d j i)
      × ((j j' i k : ℕ)
          → j < n
          → j' < n
          → i < n
          → k < n
          → at d j i -ℤ at d j k ≡ at d j' i -ℤ at d j' k)
compute_delays-consistent table zero h valid = absurd (omega arith)
compute_delays-consistent table (suc m) h valid =
    let n : ℕ = suc m in
    let ref : m < n = omega arith in
    let lem = at-delay_table n table valid m ref in
    let dif_of = dif table n m in
    (
      delay_table table n (difs table n m) m,
      first_reference table m,
      (λ j i hj hi. rw (lem j i hj hi) (
          omega (
            arith,
            dif-ge n table valid m ref j i hj hi,
            -ℤ_parts (at table j i) (at table j m),
            +ℤ_parts (dif_of i) (at table j m),
          ))),
      λ j j' i k hj hj' hi hk.
          rw (lem j i hj hi, lem j k hj hk, lem j' i hj' hi, lem j' k hj' hk)
            (same_difference (dif_of i) (dif_of k) (at table j m) (at table j' m)),
    )
