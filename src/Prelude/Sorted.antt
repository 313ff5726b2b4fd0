-- ===== src/Prelude/Sorted.antt =====
-- Ascending lists of numbers: two that are permutations of one another are one list.
use mathlib.Core.List.{Mem, Perm, Pairwise, mem-cons, mem-cons_self}
use mathlib.Core.List.Perm
use mathlib.Core.List.Pairwise
use mathlib.Core.Logic.Or
use mathlib.Core.Path.{ap₂}
use native.Mathlib.Bridge.{le_prop}
use native.Mathlib.Nat.{le_antisymm}
use sasd_protocols.Prelude.{ℕ, ◌≤◌, ◌≡◌, List, [], ◌∷◌, arith}

abbrev pub IsAscending : List ℕ → Type 0
IsAscending = Pairwise ◌≤◌

below_head : {a b : ℕ} {l : List ℕ} → IsAscending (a ∷ l) → Mem b (a ∷ l) → a ≤ b
below_head {a} (Pairwise.cons h s) m =
    Or.elim le_prop (mem-cons.0 m) (λ e. omega arith) (λ i. h _ i)

pub IsAscending-eq_of_perm : {l r : List ℕ} → IsAscending l → IsAscending r → Perm l r → l ≡ r
IsAscending-eq_of_perm {l = []} s t p = Perm.nil-eq p
IsAscending-eq_of_perm {l = a ∷ l} {r = []} s t p = Perm.eq-nil p
IsAscending-eq_of_perm {l = a ∷ l} {r = b ∷ r} s t p =
    let heads =
      le_antisymm (below_head s ((Perm.mem_iff p).1 mem-cons_self))
        (below_head t ((Perm.mem_iff p).0 mem-cons_self)) in
    let tails = Perm.cons_inv (Perm.trans p (Perm.symm (Perm.cons' heads Perm.rfl))) in
    ap₂ ◌∷◌ heads (IsAscending-eq_of_perm {l = l} (Pairwise.of_cons s) (Pairwise.of_cons t) tails)
