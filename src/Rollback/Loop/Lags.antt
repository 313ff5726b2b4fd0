-- ===== src/Rollback/Loop/Lags.antt =====
-- The tables of lags and delays in src/game_timewarp.c and src/game_fasteventordering.c, which are
-- read by the numbers of two players.
use sasd_protocols.Prelude.{
  ℕ, zero, suc, ◌-◌, ◌^◌, ◌≤◌, ◌<◌, ◌≡◌, refl, ap, ◌∙◌, List, [], ◌∷◌, length, get_elem?, get_or, ℤ,
  pos, negsuc, ◌≤ℤ◌, some, ◌>>=◌, All, arith,
}
use sasd_protocols.Balls.Types.{max_players}
use sasd_protocols.Ordering.{Matrix, at}
use sasd_protocols.Rollback.Loop.{entry, row_at}

-- The number of a player of the game.
abbrev pub IsPlayer : ℤ → Type 0
IsPlayer z = (pos 0 ≤ℤ z) × (z ≤ℤ pos (max_players - 1))

-- No negative lag, and none that is huge.
abbrev pub IsLag : ℤ → Type 0
IsLag z = (pos 0 ≤ℤ z) × (z ≤ℤ pos (2 ^ 20))

-- A row and a column for each player of the game.
abbrev pub IsLags : Matrix → Type 0
IsLags table =
    (max_players ≤ length table) × All (λ row. (max_players ≤ length row) × All IsLag row) table

pub below : (z : ℤ) (m : ℕ) → pos 0 ≤ℤ z → z ≤ℤ pos m → (n : ℕ) × (z ≡ pos n) × (n ≤ m)
below (pos n) m lo hi = (n, refl, omega arith)
below (negsuc n) m lo hi = absurd (omega arith)

get_elem?-All :
    {A : Type 0} (P : A → Type 0) (xs : List A) (i : ℕ)
    → All P xs
    → i < length xs
    → (x : A) × (get_elem? xs i ≡ some x) × P x
get_elem?-All P [] i h lt = absurd (omega arith)
get_elem?-All P (x ∷ xs) zero (h, hs) lt = (x, refl, h)
get_elem?-All P (x ∷ xs) (suc i) (h, hs) lt = get_elem?-All P xs i hs (omega arith)

-- A player has an element in a list with one for each of them.
pub row_at-All :
    {A : Type 0} (P : A → Type 0) (xs : List A) (i : ℤ)
    → All P xs
    → max_players ≤ length xs
    → IsPlayer i
    → (x : A) × (row_at xs i ≡ some x) × P x
unfolding row_at
row_at-All P xs (pos i) h long player = get_elem?-All P xs i h (omega arith)
row_at-All P xs (negsuc i) h long player = absurd (omega arith)

-- Any two players have a lag.
pub entry-IsLags :
    (table : Matrix) (i j : ℤ)
    → IsLags table
    → IsPlayer i
    → IsPlayer j
    → (lag : ℕ) × (entry table i j ≡ some (pos lag)) × (lag ≤ 2 ^ 20)
unfolding entry
entry-IsLags table i j (long, rows) hi hj =
    let (row, e, (wide, lags)) = row_at-All _ table i rows long hi in
    let (z, e', (lo, high)) = row_at-All IsLag row j lags wide hj in
    let (n, e'', small) = below z (2 ^ 20) lo high in
    (n, ap (λ o. o >>= λ row. row_at row j) e ∙ e' ∙ ap some e'', small)

get_or-All :
    {A : Type 0} (P : A → Type 0) (xs : List A) (i : ℕ) (d : A)
    → All P xs
    → i < length xs
    → (get_elem? xs i ≡ some (get_or xs i d)) × P (get_or xs i d)
get_or-All P [] i d h lt = absurd (omega arith)
get_or-All P (x ∷ xs) zero d (h, hs) lt = (refl, h)
get_or-All P (x ∷ xs) (suc i) d (h, hs) lt = get_or-All P xs i d hs (omega arith)

-- The element that is read is that of the table.
pub entry-at :
    (table : Matrix) (i j : ℕ)
    → IsLags table
    → i < max_players
    → j < max_players
    → (entry table (pos i) (pos j) ≡ some (at table i j)) × IsLag (at table i j)
unfolding entry row_at
entry-at table i j (long, rows) hi hj =
    let (e, (wide, lags)) = get_or-All _ table i [] rows (omega arith) in
    let (e', h) = get_or-All IsLag (get_or table i []) j (pos 0) lags (omega arith) in
    (ap (λ o. o >>= λ row. row_at row (pos j)) e ∙ e', h)
