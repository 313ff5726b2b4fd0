-- ===== src/Server/Threads/Hub/Delivery.antt =====
-- What it means that each member of the hub is told what the others have sent.
use mathlib.Core.Path.{subst}
use sasd_protocols.Prelude.{
  ℕ, suc, ◌≤◌, ◌≡◌, ◌≢◌, ◌⊎◌, inl, inr, refl, sym, ap, ◌∙◌, List, [], ◌∷◌, ◌++◌, Option, none, some,
  ℤ, pos, arith,
}
use sasd_protocols.Server.Threads.Hub.{PacketBytes, Hub, from, IsGiven}
use sasd_protocols.Server.Threads.Hub.Repeats.{
  Repeats, Delivered, Repeats-refl, once_more, again_last,
}
use sasd_protocols.Server.Threads.Hub.Boxes.{Within, Distinct}

-- What a member has of another one: all that was sent, in order.
abbrev pub HasGot : Hub → ℤ → ℤ → Type 0
HasGot s c d = Delivered (s.log c) (s.pending c) (from c (s.box d))

pub record IsSound (s : Hub) : Type 0 where
  pub distinct : Distinct s.members
  pub known : (c : ℤ) → Within c s.members → IsGiven s.given c
  -- a number that was not given has sent nothing, and the last packet sent may be on its way
  pub nothing_yet : (n : ℕ) (d : ℤ) → s.given ≤ n → from (pos n) (s.box d) ≡ []
  pub on_its_way :
      (c : ℤ) (xs : PacketBytes)
      → s.pending c ≡ some xs
      → (before : List PacketBytes) × (s.log c ≡ before ++ (xs ∷ []))
  pub delivered : (c d : ℤ) → Within c s.members → Within d s.members → c ≢ d → HasGot s c d

-- A log is delivered by itself.
pub Delivered-refl :
    {A : Type 0} (log : List A) (p : Option A)
    → ((x : A) → p ≡ some x → (before : List A) × (log ≡ before ++ (x ∷ [])))
    → Delivered log p log
Delivered-refl log none h = Repeats-refl log
Delivered-refl log (some x) h = let (before, e) = h x refl in (before, e, inr (Repeats-refl log))

-- The new packet of a sender may be on its way.
pub keep-Delivered :
    {A : Type 0} (log : List A) (p : Option A) (x : A) (r : List A)
    → p ≡ none
    → Delivered log p r
    → Delivered (log ++ (x ∷ [])) (some x) r
keep-Delivered log none x r e h = (log, refl, inl h)
keep-Delivered log (some y) x r e h = absurd (ground arith)

-- It arrives, perhaps after the receiver had it with the history.
pub pass-Delivered :
    {A : Type 0} (log : List A) (p : Option A) (x : A) (r : List A)
    → p ≡ some x
    → Delivered log p r
    → Repeats log (r ++ (x ∷ []))
pass-Delivered log none x r e h = absurd (ground arith)
pass-Delivered {A} log (some y) x r e (before, l, h) =
    let q : y ≡ x = cc in arrives (l ∙ ap (λ z. before ++ (z ∷ [])) q) h
  where
    arrives :
        log ≡ before ++ (x ∷ []) → (Repeats before r ⊎ Repeats log r) → Repeats log (r ++ (x ∷ []))
    arrives l (inl h) = subst (λ m. Repeats m (r ++ (x ∷ []))) (sym l) (once_more x h)
    arrives l (inr h) =
        subst (λ m. Repeats m (r ++ (x ∷ []))) (sym l)
          (again_last before x (subst (λ m. Repeats m r) l h))

-- HasGot read at other functions that agree at the two.
pub Delivered-same :
    {A : Type 0} (l l' : List A) (p p' : Option A) (r r' : List A)
    → l' ≡ l
    → p' ≡ p
    → r' ≡ r
    → Delivered l p r
    → Delivered l' p' r'
Delivered-same l l' p p' r r' a b c h =
    subst (λ m. Delivered m p' r') (sym a)
      (subst (λ q. Delivered l q r') (sym b) (subst (λ q. Delivered l p q) (sym c) h))

pub grown : (g : ℕ) (c : ℤ) → IsGiven g c → IsGiven (suc g) c
grown g c (n, e, h) = (n, e, omega arith)

pub not_given : (g n : ℕ) (c : ℤ) → g ≤ n → IsGiven g c → c ≢ pos n
not_given g n c h (m, e, l) q = ground arith

pub Within-append :
    (c : ℤ) (xs ys : List ℤ) (m : ℤ) → Within c (xs ++ ys) → Within c (xs ++ (m ∷ ys))
Within-append c [] ys m w = inr w
Within-append c (x ∷ xs) ys m (inl e) = inl e
Within-append c (x ∷ xs) ys m (inr w) = inr (Within-append c xs ys m w)

pub Distinct-append : (xs ys : List ℤ) (m : ℤ) → Distinct (xs ++ (m ∷ ys)) → Distinct (xs ++ ys)
Distinct-append [] ys m (h, d) = d
Distinct-append (x ∷ xs) ys m (h, d) =
    ((λ w. h (Within-append x xs ys m w)), Distinct-append xs ys m d)
