-- ===== src/Ordering/Difs.antt =====
-- The entries of the tables that `compute_delays` fills in.
use sasd_protocols.Prelude.{
  ℕ, zero, suc, ◌+◌, ◌^◌, ◌≤◌, ◌<◌, ◌≡◌, refl, ap, ◌∙◌, [], get_or, ℤ, pos, negsuc, ◌≤ℤ◌, ◌+ℤ◌,
  ◌-ℤ◌, +ℤ_parts, -ℤ_parts, eq_of_parts, int_laws, parts_excl, ltb_ℤ, ==_iff, ne→==_false, arith,
  false, pos_part, neg_part,
}
use native.Mathlib.Decide.{ℕ_discrete}
use native.Mathlib.Nat.{zero-add}
use sasd_protocols.Prelude.Word.{signed-bits_32}
use sasd_protocols.Ordering.{
  Matrix, at, sub_int, add_int, fill_from, greater, lesser, max_loop, dif, difs, delay, delay_table,
}

pub get_or-fill_from :
    {A : Type 0} (n i k : ℕ) (f : ℕ → A) (d : A) → k < n → get_or (fill_from n i f) k d ≡ f (i + k)
get_or-fill_from zero i k f d h = absurd (omega arith)
get_or-fill_from (suc n) i zero f d h = ap f (omega arith)
get_or-fill_from (suc n) i (suc k) f d h =
    get_or-fill_from n (i + 1) k f d (omega arith) ∙ ap f (omega arith)

-- Lags are numbers of frames, not negative and far below the end of `int`.
abbrev pub IsLag : ℤ → Type 0
IsLag z = (pos_part z ≤ 2 ^ 20) × (neg_part z ≡ 0)

abbrev pub IsTable : ℕ → Matrix → Type 0
IsTable n table = (i j : ℕ) → i < n → j < n → IsLag (at table i j)

greater_lem : (m d : ℤ) → (m ≤ℤ greater m d) × (d ≤ℤ greater m d)
unfolding greater
greater_lem m d = ground arith

pub lesser_lem : (m d : ℤ) → (lesser m d ≤ℤ m) × (lesser m d ≤ℤ d)
unfolding lesser
lesser_lem m d = ground arith

pub le→ltb_ℤ_false : (z : ℤ) → z ≤ℤ pos 0 → ltb_ℤ (pos 0) z ≡ false
le→ltb_ℤ_false z h = ground arith

pub same_difference : (a b c d : ℤ) → a +ℤ c -ℤ (b +ℤ c) ≡ a +ℤ d -ℤ (b +ℤ d)
same_difference a b c d = omega int_laws

greater_bounds :
    (m d : ℤ)
    → (pos_part m ≤ 2 ^ 21) × (neg_part m ≤ 1)
    → pos_part d ≤ 2 ^ 21
    → (pos_part (greater m d) ≤ 2 ^ 21) × (neg_part (greater m d) ≤ 1)
unfolding greater
greater_bounds m d b h = ground (arith, parts_excl m, parts_excl d)

-- `int` arithmetic on small numbers is exact.
abbrev IsSmall : ℤ → Type 0
IsSmall z = (pos_part z ≤ 2 ^ 24) × (neg_part z ≤ 2 ^ 24)

sub_exact : (a b : ℤ) → IsSmall a → IsSmall b → sub_int a b ≡ a -ℤ b
sub_exact a b u v = signed-bits_32 (a -ℤ b) (
  omega (arith, -ℤ_parts a b, parts_excl (a -ℤ b)),
  omega (arith, -ℤ_parts a b, parts_excl (a -ℤ b)),
)

add_exact : (a b : ℤ) → IsSmall a → IsSmall b → add_int a b ≡ a +ℤ b
add_exact a b u v = signed-bits_32 (a +ℤ b) (
  omega (arith, +ℤ_parts a b, parts_excl (a +ℤ b)),
  omega (arith, +ℤ_parts a b, parts_excl (a +ℤ b)),
)

module _ (n : ℕ) (table : Matrix) (valid : IsTable n table) (p_ref : ℕ) (ref : p_ref < n) where
  lag_diff :
      (j i : ℕ)
      → j < n
      → i < n
      → sub_int (at table j i) (at table j p_ref) ≡ at table j i -ℤ at table j p_ref
  lag_diff j i hj hi =
      let u = valid j i hj hi in
      let v = valid j p_ref hj ref in
      sub_exact (at table j i) (at table j p_ref) (omega arith) (omega arith)

  -- The loop finds a number not below any difference that it looks at, and not below its start.
  max_loop_lem :
      (left p_j p_i : ℕ) (m : ℤ)
      → p_j + left ≤ n
      → p_i < n
      → (pos_part m ≤ 2 ^ 21) × (neg_part m ≤ 1)
      → let r = max_loop table left p_j p_i p_ref m in
        (m ≤ℤ r)
        × ((j : ℕ) → p_j ≤ j → j < p_j + left → (at table j p_i -ℤ at table j p_ref) ≤ℤ r)
        × (pos_part r ≤ 2 ^ 21)
        × (neg_part r ≤ 1)
  unfolding max_loop
  max_loop_lem zero p_j p_i m h hi b = (omega arith, (λ j lo hi. absurd (omega arith)), b.0, b.1)
  max_loop_lem (suc left) p_j p_i m h hi b =
      let e = lag_diff p_j p_i (omega arith) hi in
      let u = valid p_j p_i (omega arith) hi in
      let v = valid p_j p_ref (omega arith) ref in
      let d = at table p_j p_i -ℤ at table p_j p_ref in
      let parts = -ℤ_parts (at table p_j p_i) (at table p_j p_ref) in
      let g = greater_lem m d in
      let (lo, all, hi', lo') =
        max_loop_lem left (p_j + 1) p_i (greater m d) (omega arith) hi
          (greater_bounds m d b (omega (arith, parts, parts_excl d))) in
      rw e (
        omega (arith, lo, g),
        λ j l k. elim (ℕ_discrete j p_j) [
          | yes q ↦ rw q (omega (arith, lo, g))
          | no q ↦ all j (omega arith) (omega arith)
        ],
        hi',
        lo',
      )

  -- The difference that is kept for each client: at least that of every receiver.
  pub dif-ge : (j i : ℕ) → j < n → i < n → (at table j i -ℤ at table j p_ref) ≤ℤ dif table n p_ref i
  unfolding dif
  dif-ge j i hj hi = elim (ℕ_discrete i p_ref) [
    | yes q ↦
        rw (q, (==_iff p_ref p_ref).1 refl)
          (omega (arith, -ℤ_parts (at table j p_ref) (at table j p_ref)))
    | no q ↦ rw (ne→==_false i p_ref q) (
        (max_loop_lem n 0 i (negsuc 0) (omega arith) hi (omega arith, omega arith)).1 j
          (omega arith) (omega arith))
  ]

  dif-small :
      (i : ℕ)
      → i < n
      → (pos_part (dif table n p_ref i) ≤ 2 ^ 21) × (neg_part (dif table n p_ref i) ≤ 1)
  unfolding dif
  dif-small i hi = elim (ℕ_discrete i p_ref) [
    | yes q ↦ rw (q, (==_iff p_ref p_ref).1 refl) (omega arith, omega arith)
    | no q ↦
        let b = max_loop_lem n 0 i (negsuc 0) (omega arith) hi (omega arith, omega arith) in
        rw (ne→==_false i p_ref q) (b.2, b.3)
  ]

  -- A delay in closed form.
  delay_lem :
      (j i : ℕ)
      → j < n
      → i < n
      → delay table (difs table n p_ref) p_ref j i ≡ dif table n p_ref i +ℤ at table j p_ref
  unfolding delay difs
  delay_lem j i hj hi =
      let d = dif table n p_ref i in
      let l = at table j i in
      let r = at table j p_ref in
      let u = valid j i hj hi in
      let v = valid j p_ref hj ref in
      let s = dif-small i hi in
      rw
        (
          get_or-fill_from n 0 i (dif table n p_ref) (pos 0) hi,
          zero-add i,
          lag_diff j i hj hi,
          sub_exact d (l -ℤ r) (omega arith, omega arith)
              (
                omega (arith, -ℤ_parts l r, parts_excl (l -ℤ r)),
                omega (arith, -ℤ_parts l r, parts_excl (l -ℤ r)),
              ),
        )
        (add_exact l (d -ℤ (l -ℤ r)) (omega arith) (
          omega (arith, -ℤ_parts l r, -ℤ_parts d (l -ℤ r), parts_excl (d -ℤ (l -ℤ r))),
          omega (arith, -ℤ_parts l r, -ℤ_parts d (l -ℤ r), parts_excl (d -ℤ (l -ℤ r))),
        )
          ∙ eq_of_parts (l +ℤ (d -ℤ (l -ℤ r))) (d +ℤ r) (
              omega (
                arith,
                -ℤ_parts l r,
                -ℤ_parts d (l -ℤ r),
                +ℤ_parts l (d -ℤ (l -ℤ r)),
                +ℤ_parts d r,
              )))

  -- The entry of the table that the code fills in.
  pub at-delay_table :
      (j i : ℕ)
      → j < n
      → i < n
      → at (delay_table table n (difs table n p_ref) p_ref) j i
        ≡ dif table n p_ref i +ℤ at table j p_ref
  unfolding delay_table
  at-delay_table j i hj hi =
      rw
        (
          get_or-fill_from n 0 j
              (λ myid. fill_from n 0 λ p_i. delay table (difs table n p_ref) p_ref myid p_i) [] hj,
          zero-add j,
          get_or-fill_from n 0 i (λ p_i. delay table (difs table n p_ref) p_ref j p_i) (pos 0) hi,
          zero-add i,
        )
        (delay_lem j i hj hi)
