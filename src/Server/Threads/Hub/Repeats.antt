-- ===== src/Server/Threads/Hub/Repeats.antt =====
-- When one list has the elements of another in order, each at least once, repeated only next to
-- itself.
use sasd_protocols.Prelude.{◌≡◌, refl, ◌⊎◌, List, [], ◌∷◌, ◌++◌, Option, none, some}

pub data Repeats {A : Type 0} : List A → List A → Type 0 where
  nothing : Repeats [] []
  once : {x : A} {l r : List A} → Repeats l r → Repeats (x ∷ l) (x ∷ r)
  again : {x : A} {l r : List A} → Repeats (x ∷ l) (x ∷ r) → Repeats (x ∷ l) (x ∷ x ∷ r)

-- What has come of a log, when its last element may still be on its way.
abbrev pub Delivered : {A : Type 0} → List A → Option A → List A → Type 0
Delivered log none r = Repeats log r
Delivered {A} log (some x) r =
    (before : List A) × (log ≡ before ++ (x ∷ [])) × (Repeats before r ⊎ Repeats log r)

module _ {A : Type 0} where
  pub Repeats-refl : (l : List A) → Repeats l l
  Repeats-refl [] = nothing
  Repeats-refl (x ∷ l) = once (Repeats-refl l)

  pub once_more : {l r : List A} (x : A) → Repeats l r → Repeats (l ++ (x ∷ [])) (r ++ (x ∷ []))
  once_more x nothing = once nothing
  once_more x (once p) = once (once_more x p)
  once_more x (again p) = again (once_more x p)

  abbrev IsLast : A → List A → Type 0
  IsLast x [] = ⊥
  IsLast x (y ∷ []) = x ≡ y
  IsLast x (y ∷ z ∷ l) = IsLast x (z ∷ l)

  IsLast-append : (l : List A) (x : A) → IsLast x (l ++ (x ∷ []))
  IsLast-append [] x = refl
  IsLast-append (y ∷ []) x = refl
  IsLast-append (y ∷ z ∷ l) x = IsLast-append (z ∷ l) x

  again_at_end : {l r : List A} (x : A) → Repeats l r → IsLast x l → Repeats l (r ++ (x ∷ []))
  again_at_end x nothing h = absurd h
  again_at_end x (once {l = []} nothing) h = rw h (again (once nothing))
  again_at_end x (once {l = z ∷ l} p) h = once (again_at_end x p h)
  again_at_end x (again p) h = again (again_at_end x p h)

  -- The last element comes a second time.
  pub again_last :
      {r : List A} (l : List A) (x : A)
      → Repeats (l ++ (x ∷ [])) r
      → Repeats (l ++ (x ∷ [])) (r ++ (x ∷ []))
  again_last l x p = again_at_end x p (IsLast-append l x)
