-- ===== src/Balls/Sorting.antt =====
-- What `advance_state` relies on of the C library's `qsort`, and why events that are sorted by
-- `compare_events` are always the same up to what `advance_state` looks at.
use mathlib.Core.List.{Mem, Perm, Pairwise, Pairwise-map, mem-cons, mem-cons_self, not-mem-nil}
use mathlib.Core.Logic.Or
use mathlib.Core.Path.{subst}
use native.Mathlib.Bridge.{le_prop}
use mathlib.Core.List.Perm
use mathlib.Core.List.Pairwise
use sasd_protocols.Prelude.{
  ◌≤◌, ◌≡◌, sym, ℤ, pos, ◌≤ℤ◌, List, [], ◌∷◌, map, length, suc, lt→ltb, All, arith,
}
use sasd_protocols.Prelude.Sorted.{IsAscending, IsAscending-eq_of_perm}
use sasd_protocols.Balls.Types.{Event, IsEvent}
use sasd_protocols.Balls.Advance.{sort_events}
use sasd_protocols.Balls.Compare.{compare_events}
use sasd_protocols.Balls.Compare.Rank.{key, compare_le_iff_rank, rank→key, key→fields}

-- `qsort` puts the array in ascending order by the comparison function, and keeps its elements.
-- The C standard asks that the function orders the elements consistently, which
-- `compare_events` does on events that satisfy `IsEvent`.
pub record IsQsort (qsort : (Event → Event → ℤ) → List Event → List Event) : Type 0 where
  pub permutes : (evs : List Event) → Perm (qsort compare_events evs) evs
  pub sorts :
      (evs : List Event)
      → All IsEvent evs
      → Pairwise (λ a b. compare_events a b ≤ℤ pos 0) (qsort compare_events evs)

module _ {ℓ κ} {A : Type ℓ} {P : A → Type κ} (is_prop : (a : A) → IsProp (P a)) where
  pub All→mem : (l : List A) → All P l → (a : A) → Mem a l → P a
  All→mem [] h a m = absurd (not-mem-nil m)
  All→mem (x ∷ l) h a m =
      Or.elim (is_prop a) (mem-cons.0 m) (λ e. subst P (sym e) h.0) (All→mem l h.1 a)

  mem→All : (l : List A) → ((a : A) → Mem a l → P a) → All P l
  mem→All [] h = tt
  mem→All (x ∷ l) h = (h x mem-cons_self, mem→All l λ a m. h a (mem-cons.1 (Or.inr m)))

  pub All-perm : {l r : List A} → Perm l r → All P l → All P r
  All-perm {l} {r} p h = mem→All r λ a m. All→mem l h a ((Perm.mem_iff p).1 m)

pub IsEvent-prop : (ev : Event) → IsProp (IsEvent ev)
IsEvent-prop ev = hlevel le_prop

key-le : (a b : Event) → IsEvent a → IsEvent b → compare_events a b ≤ℤ pos 0 → key a ≤ key b
key-le a b u v h = rank→key a b u v ((compare_le_iff_rank a b u v).0 h)

-- The same event to `advance_state`: neither frame is looked at.
pub record IsAlike (a b : Event) : Type 0 where
  pub pressed : a.pressed ≡ b.pressed
  pub player : a.player ≡ b.player
  pub button : a.button ≡ b.button

abbrev pub AllAlike : List Event → List Event → Type 0
AllAlike [] [] = Unit
AllAlike (a ∷ l) (b ∷ r) = IsAlike a b × AllAlike l r
AllAlike _ _ = ⊥

pub keys→AllAlike :
    (l r : List Event) → All IsEvent l → All IsEvent r → map key l ≡ map key r → AllAlike l r
keys→AllAlike [] [] u v e = tt
keys→AllAlike [] (b ∷ r) u v e = cc
keys→AllAlike (a ∷ l) [] u v e = cc
keys→AllAlike (a ∷ l) (b ∷ r) (ua, ul) (vb, vr) e =
    let (x, y, z) = key→fields a b ua vb (let q : key a ≡ key b = cc in q) in
    (
      record { pressed = x; player = y; button = z },
      keys→AllAlike l r ul vr (let q : map key l ≡ map key r = cc in q),
    )

sort_events-cons :
    (qsort : (Event → Event → ℤ) → List Event → List Event) (ev : Event) (evs : List Event)
    → sort_events qsort (ev ∷ evs) ≡ qsort compare_events (ev ∷ evs)
unfolding sort_events
sort_events-cons qsort ev evs = rw (lt→ltb 0 (suc (length evs)) (omega arith))

module _ {qsort : (Event → Event → ℤ) → List Event → List Event} (is_qsort : IsQsort qsort) where
  pub sort_events-perm : (evs : List Event) → Perm (sort_events qsort evs) evs
  unfolding sort_events
  sort_events-perm [] = Perm.refl []
  sort_events-perm (ev ∷ evs) = rw (sort_events-cons qsort ev evs) (is_qsort.permutes (ev ∷ evs))

  pub sort_events-IsEvent :
      (evs : List Event) → All IsEvent evs → All IsEvent (sort_events qsort evs)
  sort_events-IsEvent evs = All-perm IsEvent-prop (Perm.symm (sort_events-perm evs))

  sorted_pairs :
      (evs : List Event)
      → All IsEvent evs
      → Pairwise (λ a b. compare_events a b ≤ℤ pos 0) (sort_events qsort evs)
  unfolding sort_events
  sorted_pairs [] h = Pairwise.nil
  sorted_pairs (ev ∷ evs) h = rw (sort_events-cons qsort ev evs) (is_qsort.sorts (ev ∷ evs) h)

  pub keys-IsAscending :
      (evs : List Event) → All IsEvent evs → IsAscending (map key (sort_events qsort evs))
  keys-IsAscending evs h =
      let valid = All→mem IsEvent-prop (sort_events qsort evs) (sort_events-IsEvent evs h) in
      (Pairwise-map (λ a b. le_prop) key).1
        (Pairwise.imp_of_mem (λ a b m n. key-le a b (valid a m) (valid b n)) (sorted_pairs evs h))

-- The same events in another order, sorted by another routine, come out as the same sequence.
pub sort_events-AllAlike :
    {qsort qsort' : (Event → Event → ℤ) → List Event → List Event} (q : IsQsort qsort)
    (q' : IsQsort qsort') (evs evs' : List Event)
    → All IsEvent evs
    → Perm evs evs'
    → AllAlike (sort_events qsort evs) (sort_events qsort' evs')
sort_events-AllAlike q q' evs evs' h p =
    let h' = All-perm IsEvent-prop p h in
    keys→AllAlike _ _ (sort_events-IsEvent q evs h) (sort_events-IsEvent q' evs' h') (
      IsAscending-eq_of_perm (keys-IsAscending q evs h) (keys-IsAscending q' evs' h') (
        Perm.map key (
          Perm.trans (sort_events-perm q evs)
            (Perm.trans p (Perm.symm (sort_events-perm q' evs'))))))
