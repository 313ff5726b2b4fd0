-- ===== src/Server/Threads/Apart.antt =====
-- Lists of clients with different numbers, as src/server.c keeps them, cut in two at one client.
use mathlib.Core.Path.{subst}
use sasd_protocols.Prelude.{◌≢◌, inl, inr, refl, sym, List, [], ◌∷◌, ◌++◌, map, All, ℤ}
use sasd_protocols.Server.{Client}
use sasd_protocols.Server.Threads.Hub.Boxes.{Within, Distinct}

-- The elements other than the one in the middle have other numbers.
pub apart :
    (before after : List Client) (c : Client)
    → Distinct (map (λ x. x.id) (before ++ (c ∷ after)))
    → All (λ x. x.id ≢ c.id) before × All (λ x. x.id ≢ c.id) after
apart [] after c (fresh, d) = (tt, others after fresh)
  where
    others : (xs : List Client) → (¬ Within c.id (map (λ x. x.id) xs)) → All (λ x. x.id ≢ c.id) xs
    others [] f = tt
    others (x ∷ xs) f = ((λ e. f (inl (sym e))), others xs (λ w. f (inr w)))
apart (x ∷ before) after c (fresh, d) =
    let (p, q) = apart before after c d in
    (
      (
        (λ e. fresh (
            subst (λ i. Within i (map (λ y. y.id) (before ++ (c ∷ after)))) (sym e)
              (middle before))),
        p,
      ),
      q,
    )
  where
    middle : (xs : List Client) → Within c.id (map (λ y. y.id) (xs ++ (c ∷ after)))
    middle [] = inl refl
    middle (y ∷ ys) = inr (middle ys)

pub Within-without :
    (i : ℤ) (xs ys : List ℤ) (m : ℤ) → i ≢ m → Within i (xs ++ (m ∷ ys)) → Within i (xs ++ ys)
Within-without i [] ys m n (inl e) = absurd (n e)
Within-without i [] ys m n (inr w) = w
Within-without i (x ∷ xs) ys m n (inl e) = inl e
Within-without i (x ∷ xs) ys m n (inr w) = inr (Within-without i xs ys m n w)

pub All-both :
    {A : Type 0} (P Q R : A → Type 0) (xs : List A)
    → ((x : A) → P x → Q x → R x)
    → All P xs
    → All Q xs
    → All R xs
All-both P Q R [] k ps qs = tt
All-both P Q R (x ∷ xs) k (p, ps) (q, qs) = (k x p q, All-both P Q R xs k ps qs)

pub All-append :
    {A : Type 0} (P : A → Type 0) (xs ys : List A) → All P xs → All P ys → All P (xs ++ ys)
All-append P [] ys ps qs = qs
All-append P (x ∷ xs) ys (p, ps) qs = (p, All-append P xs ys ps qs)

pub All-split :
    {A : Type 0} (P : A → Type 0) (xs ys : List A) → All P (xs ++ ys) → All P xs × All P ys
All-split P [] ys ps = (tt, ps)
All-split P (x ∷ xs) ys (p, ps) = let (a, b) = All-split P xs ys ps in ((p, a), b)

pub Within-id :
    (P : ℤ → Type 0) (cs : List Client)
    → ((i : ℤ) → Within i (map (λ c. c.id) cs) → P i)
    → All (λ c. P c.id) cs
Within-id P [] k = tt
Within-id P (c ∷ cs) k = (k c.id (inl refl), Within-id P cs (λ i w. k i (inr w)))
