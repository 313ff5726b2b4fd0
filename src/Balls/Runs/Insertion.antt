-- ===== src/Balls/Runs/Insertion.antt =====
-- A sorting routine that meets the contract of `qsort`: insertion sort.
use mathlib.Core.List.{Perm, Pairwise, mem-cons, not-mem-nil}
use mathlib.Core.List.Perm
use mathlib.Core.Logic.Or
use mathlib.Core.Path.{subst}
use native.Mathlib.Bridge.{le_prop}
use sasd_protocols.Prelude.{
  ◌≡◌, ◌≤◌, sym, ℤ, pos, ◌≤ℤ◌, leb_ℤ, List, [], ◌∷◌, All, Bool-cases, inl, inr, arith,
  if◌then◌else◌, false,
}
use sasd_protocols.Balls.Types.{Event, IsEvent}
use sasd_protocols.Balls.Compare.{compare_events}
use sasd_protocols.Balls.Compare.Rank.{rank, compare_le_iff_rank}
use sasd_protocols.Balls.Sorting.{IsQsort, All-perm, All→mem, IsEvent-prop}

insert_by : (Event → Event → ℤ) → Event → List Event → List Event
insert_by cmp x [] = x ∷ []
insert_by cmp x (y ∷ l) = if leb_ℤ (cmp x y) (pos 0) then x ∷ y ∷ l else y ∷ insert_by cmp x l

unfoldable pub insertion_sort : (Event → Event → ℤ) → List Event → List Event
unfolding insert_by
insertion_sort cmp [] = []
insertion_sort cmp (x ∷ l) = insert_by cmp x (insertion_sort cmp l)

insert_by-perm :
    (cmp : Event → Event → ℤ) (x : Event) (l : List Event) → Perm (insert_by cmp x l) (x ∷ l)
unfolding insert_by
insert_by-perm cmp x [] = Perm.refl (x ∷ [])
insert_by-perm cmp x (y ∷ l) = elim (Bool-cases (leb_ℤ (cmp x y) (pos 0))) [
  | inl e ↦ rw e (Perm.refl (x ∷ y ∷ l))
  | inr e ↦ rw e (Perm.trans (Perm.cons y (insert_by-perm cmp x l)) (Perm.swap x y l))
]

insertion_sort-perm : (cmp : Event → Event → ℤ) (l : List Event) → Perm (insertion_sort cmp l) l
unfolding insertion_sort
insertion_sort-perm cmp [] = Perm.refl []
insertion_sort-perm cmp (x ∷ l) =
    Perm.trans (insert_by-perm cmp x (insertion_sort cmp l))
      (Perm.cons x (insertion_sort-perm cmp l))

abbrev Le : Event → Event → Type 0
Le a b = compare_events a b ≤ℤ pos 0

le_trans_event : (a b c : Event) → IsEvent a → IsEvent b → IsEvent c → Le a b → Le b c → Le a c
le_trans_event a b c u v w p q =
    let r = (compare_le_iff_rank a b u v).0 p in
    let s = (compare_le_iff_rank b c v w).0 q in (compare_le_iff_rank a c u w).1 (omega arith)

le_total_event :
    (a b : Event) → IsEvent a → IsEvent b → leb_ℤ (compare_events a b) (pos 0) ≡ false → Le b a
le_total_event a b u v h = (compare_le_iff_rank b a v u).1 (
    let n : ¬ (rank a ≤ rank b) = λ r. ground (arith, (compare_le_iff_rank a b u v).1 r) in
    omega arith)

insert_by-sorted :
    (x : Event) (l : List Event)
    → IsEvent x
    → All IsEvent l
    → Pairwise Le l
    → Pairwise Le (insert_by compare_events x l)
unfolding insert_by
insert_by-sorted x [] u v s = Pairwise.cons (λ z m. absurd (not-mem-nil m)) Pairwise.nil
insert_by-sorted x (y ∷ l) u (v, vs) (Pairwise.cons h s) =
    elim (Bool-cases (leb_ℤ (compare_events x y) (pos 0))) [
      | inl e ↦ rw e (
          Pairwise.cons
            (λ z m.
              Or.elim le_prop (mem-cons.0 m) (λ q. subst (Le x) (sym q) (ground arith))
                λ i.
                  le_trans_event x y z u v (All→mem IsEvent-prop l vs z i) (ground arith) (h z i))
            (Pairwise.cons h s))
      | inr e ↦ rw e (
          Pairwise.cons
            (λ z m.
              Or.elim le_prop (mem-cons.0 ((Perm.mem_iff (insert_by-perm compare_events x l)).0 m))
                (λ q. subst (Le y) (sym q) (le_total_event x y u v e)) (h z))
            (insert_by-sorted x l u vs s))
    ]

insertion_sort-sorted :
    (l : List Event) → All IsEvent l → Pairwise Le (insertion_sort compare_events l)
unfolding insertion_sort
insertion_sort-sorted [] h = Pairwise.nil
insertion_sort-sorted (x ∷ l) (u, h) =
    insert_by-sorted x (insertion_sort compare_events l) u
      (All-perm IsEvent-prop (Perm.symm (insertion_sort-perm compare_events l)) h)
      (insertion_sort-sorted l h)

pub insertion_sort-IsQsort : IsQsort insertion_sort
insertion_sort-IsQsort = record {
  permutes = insertion_sort-perm compare_events;
  sorts = insertion_sort-sorted;
}
