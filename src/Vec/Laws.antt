-- ===== src/Vec/Laws.antt =====
-- When the loop of `__vec_grow` in src/vec.c ends.
use sasd_protocols.Prelude.{
  ◌⊎◌, ℕ, zero, suc, ◌+◌, ◌/◌, ◌^◌, ◌≤◌, ◌<◌, ◌≡◌, refl, none, Returns, leb, le→leb, Bool-cases,
  inl, inr, arith,
}
use sasd_protocols.Buffer.Types.{add_size}
use sasd_protocols.Vec.{grow_count}

-- From two elements on, a round adds at least one element, so the loop ends within as many rounds
-- as elements are missing. It ends with a count above the index, and at most half above what was
-- needed.
pub grow_count-Returns :
    (fuel i count : ℕ)
    → 2 ≤ count
    → i < 2 ^ 60
    → count < 2 ^ 61
    → i + 2 ≤ count + fuel
    → 0 < fuel
    → Returns
        (λ n. (i < n) × (count ≤ n) × ((n ≤ i + i / 2) ⊎ (n ≡ count)))
        (grow_count fuel i count)
unfolding grow_count
grow_count-Returns zero i count two small c enough some_fuel = absurd (omega arith)
grow_count-Returns (suc fuel) i count two small c enough some_fuel =
    elim (Bool-cases (leb count i)) [
      | inl e ↦
          let next : add_size count (count / 2) ≡ count + count / 2 = omega (arith, c) in
          let below : count ≤ i = ground arith in
          let (n, run, (above, more, bound)) =
            grow_count-Returns fuel i (add_size count (count / 2)) (omega arith) small (omega arith)
              (omega arith) (omega arith) in
          rw e (n, run, (above, omega arith, inl (by_bound n next below bound)))
      | inr e ↦ rw e (count, refl, (ground arith, omega arith, inr refl))
    ]
  where
    by_bound :
        (n : ℕ)
        → add_size count (count / 2) ≡ count + count / 2
        → count ≤ i
        → (n ≤ i + i / 2) ⊎ (n ≡ add_size count (count / 2))
        → n ≤ i + i / 2
    by_bound n next below (inl h) = h
    by_bound n next below (inr h) = omega arith

-- From fewer than two elements it does not end, for any index behind them.
pub grow_count-stuck : (fuel i count : ℕ) → count ≤ 1 → count ≤ i → grow_count fuel i count ≡ none
unfolding grow_count
grow_count-stuck zero i count c h = refl
grow_count-stuck (suc fuel) i count c h =
    rw (le→leb count i h)
      (grow_count-stuck fuel i (add_size count (count / 2)) (omega arith) (omega arith))
