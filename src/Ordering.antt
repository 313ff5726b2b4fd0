-- ===== src/Ordering.antt =====
-- `compute_delays` of src/game_fasteventordering.c: how long each client holds the events of each
-- client back, so that all clients see them with the same spacing.
pub mod Client
pub mod Difs
pub mod Consistent
mod Runs
use sasd_protocols.Prelude.{
  ℕ, zero, suc, ◌+◌, ◌-◌, List, [], ◌∷◌, get_or, ℤ, pos, negsuc, ◌+ℤ◌, ◌-ℤ◌, ltb_ℤ, ◌==◌, Option,
  none, some, if◌then◌else◌, Bool, true, false,
}
use sasd_protocols.Prelude.Word.{wrap, mod32}

-- An array of arrays of `int`, read by row and column. A read out of range does not occur for
-- indices below `n_clients`, which is at most MAX_PLAYERS.
abbrev pub Matrix : Type 0
Matrix = List (List ℤ)

abbrev pub at : Matrix → ℕ → ℕ → ℤ
at l i j = get_or (get_or l i []) j (pos 0)

-- The table at the beginning of the file.
abbrev pub lags : Matrix
lags =
    (pos 0 ∷ pos 0 ∷ pos 30 ∷ pos 0 ∷ pos 0 ∷ pos 0 ∷ pos 0 ∷ pos 0 ∷ [])
    ∷ (pos 0 ∷ pos 0 ∷ pos 30 ∷ pos 0 ∷ pos 0 ∷ pos 0 ∷ pos 0 ∷ pos 0 ∷ [])
    ∷ (pos 30 ∷ pos 30 ∷ pos 0 ∷ pos 0 ∷ pos 0 ∷ pos 0 ∷ pos 0 ∷ pos 0 ∷ [])
    ∷ (pos 0 ∷ pos 0 ∷ pos 0 ∷ pos 0 ∷ pos 0 ∷ pos 0 ∷ pos 0 ∷ pos 0 ∷ [])
    ∷ (pos 0 ∷ pos 0 ∷ pos 0 ∷ pos 0 ∷ pos 0 ∷ pos 0 ∷ pos 0 ∷ pos 0 ∷ [])
    ∷ (pos 0 ∷ pos 0 ∷ pos 0 ∷ pos 0 ∷ pos 0 ∷ pos 0 ∷ pos 0 ∷ pos 0 ∷ [])
    ∷ (pos 0 ∷ pos 0 ∷ pos 0 ∷ pos 0 ∷ pos 0 ∷ pos 0 ∷ pos 0 ∷ pos 0 ∷ [])
    ∷ (pos 0 ∷ pos 0 ∷ pos 0 ∷ pos 0 ∷ pos 0 ∷ pos 0 ∷ pos 0 ∷ pos 0 ∷ [])
    ∷ []

abbrev pub sub_int : ℤ → ℤ → ℤ
sub_int a b = wrap mod32 (a -ℤ b)

abbrev pub add_int : ℤ → ℤ → ℤ
add_int a b = wrap mod32 (a +ℤ b)

-- What a `for` from `i` on assigns to so many elements of an array.
abbrev pub fill_from {ℓ} : {A : Type ℓ} → ℕ → ℕ → (ℕ → A) → List A
fill_from zero i f = []
fill_from (suc left) i f = f i ∷ fill_from left (i + 1) f

-- `if (dif_temp > max_dif) max_dif = dif_temp;` and `if (difs[i] < min_dif) min_dif = difs[i];`
pub greater : ℤ → ℤ → ℤ
greater max_dif d = if ltb_ℤ max_dif d then d else max_dif

pub lesser : ℤ → ℤ → ℤ
lesser min_dif d = if ltb_ℤ d min_dif then d else min_dif

module _ (table : Matrix) where
  -- The loop over `p_j`, `left` rounds from `p_j` on.
  pub max_loop : ℕ → ℕ → ℕ → ℕ → ℤ → ℤ
  max_loop zero p_j p_i p_ref max_dif = max_dif
  max_loop (suc left) p_j p_i p_ref max_dif =
      let dif_temp = sub_int (at table p_j p_i) (at table p_j p_ref) in
      max_loop left (p_j + 1) p_i p_ref (greater max_dif dif_temp)

  -- `difs[p_i]`: 0 for the reference, which the loop skips.
  pub dif : ℕ → ℕ → ℕ → ℤ
  dif n p_ref p_i = if p_i == p_ref then pos 0 else max_loop n 0 p_i p_ref (negsuc 0)

  pub difs : ℕ → ℕ → List ℤ
  difs n p_ref = fill_from n 0 (dif n p_ref)

  pub delay : List ℤ → ℕ → ℕ → ℕ → ℤ
  delay ds p_ref myid p_i =
      let adjust =
        sub_int (get_or ds p_i (pos 0)) (sub_int (at table myid p_i) (at table myid p_ref)) in
      add_int (at table myid p_i) adjust

  pub delay_table : ℕ → List ℤ → ℕ → Matrix
  delay_table n ds p_ref = fill_from n 0 λ myid. fill_from n 0 λ p_i. delay ds p_ref myid p_i

-- `min_dif`, which begins with `difs[0]`.
pub min_loop : List ℤ → ℤ → ℤ
min_loop [] min_dif = min_dif
min_loop (d ∷ ds) min_dif = min_loop ds (lesser min_dif d)

pub min_of : List ℤ → ℤ
min_of [] = pos 0
min_of (d ∷ ds) = min_loop ds d

module _ (table : Matrix) where
  -- The loop over `p_ref`, which counts down: the next reference is `left - 1`. `none` is the
  -- return of 0.
  pub try_from : ℕ → ℕ → Option Matrix
  try_from zero n = none
  try_from (suc p_ref) n =
      let ds = difs table n p_ref in
      let rest = try_from p_ref n in
      if ltb_ℤ (pos 0) (min_of ds) then rest else some (delay_table table n ds p_ref)

  -- The table of delays for `n_clients`.
  pub compute_delays : ℕ → Option Matrix
  compute_delays n_clients = try_from n_clients n_clients
