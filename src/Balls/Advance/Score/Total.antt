-- ===== src/Balls/Advance/Score/Total.antt =====
-- The accesses to arrays stay inside them, for a player's number in range.
use sasd_protocols.Prelude.{
  ◌-◌, ◌<◌, ◌≡◌, refl, ℤ, pos, negsuc, ◌≤ℤ◌, ◌>>=◌, pos_part, List, [], ◌∷◌, length, length-set,
  All, All-get_elem?, All-set, set, get_elem?_in, some, Returns, Returns-bind, arith,
}
use sasd_protocols.Balls.Types.{max_players}
use sasd_protocols.Balls.Advance.Score.{
  modify?, Tally, death, lose_point, win_point, minus_point, plus_point,
}

module _ {ℓ κ} {A : Type ℓ} (P : A → Type κ) where
  -- `ys` is as long as `xs`, and all its elements satisfy `P`.
  abbrev pub SameLength : List A → List A → Type κ
  SameLength xs ys = (length ys ≡ length xs) × All P ys

  pub modify?-Returns :
      (xs : List A) (z : ℤ) (f : A → A)
      → pos 0 ≤ℤ z
      → pos_part z < length xs
      → All P xs
      → ((a : A) → P a → P (f a))
      → Returns (SameLength xs) (modify? xs z f)
  unfolding modify?
  modify?-Returns xs (negsuc i) f lo hi h k = absurd (omega arith)
  modify?-Returns xs (pos i) f lo hi h k =
      let (x, e) = get_elem?_in xs i hi in
      (
        set xs i (f x),
        rw e,
        (length-set xs i (f x), All-set P xs i (f x) h (k x (All-get_elem? P xs i x h e))),
      )

-- A score that was reset or raised is a number of its own; only the length matters here.
abbrev pub IsTally : Tally → Type 0
IsTally t = length t.scores ≡ max_players

abbrev Any : ℤ → Type 0
Any z = Unit

All-Any : (xs : List ℤ) → All Any xs
All-Any [] = tt
All-Any (x ∷ xs) = (tt, All-Any xs)

scores-Returns :
    (t : Tally) (player : ℤ) (f : ℤ → ℤ)
    → IsTally t
    → pos 0 ≤ℤ player
    → player ≤ℤ pos (max_players - 1)
    → Returns IsTally (modify? t.scores player f >>= λ s. some (record t { scores = s }))
scores-Returns t (negsuc n) f v lo hi = absurd (omega arith)
scores-Returns t (pos n) f v lo hi =
    Returns-bind (SameLength Any t.scores) IsTally _ _
      (modify?-Returns Any t.scores (pos n) f lo (omega arith) (All-Any t.scores) λ a u. tt)
      λ s u. (record t { scores = s }, refl, omega arith)

pub lose_point-Returns :
    (t : Tally) (player : ℤ)
    → IsTally t
    → pos 0 ≤ℤ player
    → player ≤ℤ pos (max_players - 1)
    → Returns IsTally (lose_point player t)
unfolding lose_point
lose_point-Returns t player = scores-Returns t player minus_point

pub win_point-Returns :
    (t : Tally) (player : ℤ)
    → IsTally t
    → pos 0 ≤ℤ player
    → player ≤ℤ pos (max_players - 1)
    → Returns IsTally (win_point player t)
unfolding win_point
win_point-Returns t player = scores-Returns t player plus_point

pub death-IsTally : (t : Tally) → IsTally t → IsTally (death t)
unfolding death
death-IsTally t u = u
