-- ===== src/Balls/Advance/Score.antt =====
-- The scores and the death count, which `advance_state` changes while it goes over the balls.
pub mod Total
use sasd_protocols.Prelude.{
  ℕ, ◌<◌, ℤ, pos, negsuc, ◌+ℤ◌, ◌-ℤ◌, ltb_ℤ, List, set, get_elem?, Option, none, some, ◌>>=◌,
  if◌then◌else◌,
}
use sasd_protocols.Balls.Collide.{i32}

-- `xs[i]` changed by `f`, or `none` where `i` is no index of the array.
unfoldable pub modify? {ℓ} : {A : Type ℓ} → List A → ℤ → (A → A) → Option (List A)
modify? xs (pos i) f = do x ← get_elem? xs i; some (set xs i (f x))
modify? xs (negsuc i) f = none

pub record Tally : Type 0 where
  pub scores : List ℤ
  pub death_count : ℤ

-- `newst.death_count++`
pub death : Tally → Tally
death t = record t { death_count = i32 (t.death_count +ℤ pos 1) }

-- `scores[player] -= 1`, and back to 0 if that is negative.
pub minus_point : ℤ → ℤ
minus_point n = let n' = i32 (n -ℤ pos 1) in if ltb_ℤ n' (pos 0) then pos 0 else n'

pub plus_point : ℤ → ℤ
plus_point n = i32 (n +ℤ pos 1)

pub lose_point : ℤ → Tally → Option Tally
lose_point player t = do
  scores ← modify? t.scores player minus_point
  some (record t { scores = scores })

pub win_point : ℤ → Tally → Option Tally
win_point player t = do
  scores ← modify? t.scores player plus_point
  some (record t { scores = scores })
