-- ===== src/Balls/Advance/Same.antt =====
-- `advance_state` takes events as a set: it sees neither their order nor how often they come.
use mathlib.Core.List.{Mem, Perm, Pairwise, Mem-prop, mem-cons, mem-cons_self, not-mem-nil}
use mathlib.Core.List.Perm
use mathlib.Core.Logic.Or
use mathlib.Core.Path.{subst}
use native.Mathlib.Bridge.{le_prop}
use sasd_protocols.Prelude.{
  ==_iff, ◌↔◌, ℕ, ◌≡◌, refl, sym, ap, ◌∙◌, ℤ, List, [], ◌∷◌, map, ◌==◌, Bool-cases, inl, inr, true,
  false, if◌then◌else◌, All, arith,
}
use sasd_protocols.Prelude.Sorted.{IsAscending, IsAscending-eq_of_perm}
use sasd_protocols.Balls.Types.{State, Event, IsEvent}
use sasd_protocols.Balls.Compare.Rank.{key}
use sasd_protocols.Balls.Sorting.{
  All-perm, IsEvent-prop, IsQsort, AllAlike, keys→AllAlike, keys-IsAscending, sort_events-perm,
  sort_events-IsEvent,
}
use sasd_protocols.Balls.Advance.{sort_events}
use sasd_protocols.Balls.Advance.Alike.{
  next_state, next_state-sorted, advance_sorted-AllAlike, next_state-perm,
}
use sasd_protocols.Balls.Advance.Twice.{double_event, advance_sorted-double_event}

-- The same events, in any order and any of them more than once.
pub data SameEvents : List Event → List Event → Type 0 where
  reordered : {l r : List Event} → Perm l r → SameEvents l r
  repeated : (ev : Event) (l : List Event) → SameEvents (ev ∷ ev ∷ l) (ev ∷ l)
  reversed : {l r : List Event} → SameEvents l r → SameEvents r l
  through : {l m r : List Event} → SameEvents l m → SameEvents m r → SameEvents l r

-- The list with the first of a number twice.
abbrev double : ℕ → List ℕ → List ℕ
double k [] = []
double k (x ∷ l) = let rest = double k l in if x == k then x ∷ x ∷ l else x ∷ rest

map-double_event : (k : ℕ) (l : List Event) → map key (double_event k l) ≡ double k (map key l)
map-double_event k [] = refl
map-double_event k (x ∷ l) = elim (Bool-cases (key x == k)) [
  | inl e ↦ rw e refl
  | inr e ↦ rw e (ap (λ r. key x ∷ r) (map-double_event k l))
]

mem-double : (k a : ℕ) (l : List ℕ) → Mem a (double k l) → Mem a l
mem-double k a [] m = m
mem-double k a (x ∷ l) m = elim (Bool-cases (x == k)) [
  | inl e ↦
      Or.elim (Mem-prop) (mem-cons.0 (subst (Mem a) (at_key e) m)) (λ q. mem-cons.1 (Or.inl q))
        λ i. i
  | inr e ↦
      Or.elim (Mem-prop) (mem-cons.0 (subst (Mem a) (not_at_key e) m)) (λ q. mem-cons.1 (Or.inl q))
        λ i. mem-cons.1 (Or.inr (mem-double k a l i))
]
  where
    at_key : x == k ≡ true → double k (x ∷ l) ≡ x ∷ x ∷ l
    at_key e = rw e refl

    not_at_key : x == k ≡ false → double k (x ∷ l) ≡ x ∷ double k l
    not_at_key e = rw e refl

double-perm : (k : ℕ) (l : List ℕ) → Mem k l → Perm (double k l) (k ∷ l)
double-perm k [] m = absurd (not-mem-nil m)
double-perm k (x ∷ l) m = elim (Bool-cases (x == k)) [
  | inl e ↦
      rw e (subst (λ y. Perm (x ∷ x ∷ l) (y ∷ x ∷ l)) ((==_iff x k).0 e) (Perm.refl (x ∷ x ∷ l)))
  | inr e ↦
      let later : Mem k l =
        Or.elim (Mem-prop) (mem-cons.0 m) (λ q. absurd (ground arith)) (λ i. i) in
      rw e (Perm.trans (Perm.cons x (double-perm k l later)) (Perm.swap k x l))
]

double-IsAscending : (k : ℕ) (l : List ℕ) → IsAscending l → IsAscending (double k l)
double-IsAscending k [] s = Pairwise.nil
double-IsAscending k (x ∷ l) (Pairwise.cons h s) = elim (Bool-cases (x == k)) [
  | inl e ↦ rw e (
      Pairwise.cons (λ a m. Or.elim le_prop (mem-cons.0 m) (λ q. omega arith) (h a))
        (Pairwise.cons h s))
  | inr e ↦ rw e (Pairwise.cons (λ a m. h a (mem-double k a l m)) (double-IsAscending k l s))
]

double_event-IsEvent : (k : ℕ) (l : List Event) → All IsEvent l → All IsEvent (double_event k l)
double_event-IsEvent k [] h = tt
double_event-IsEvent k (x ∷ l) (h, hs) = elim (Bool-cases (key x == k)) [
  | inl e ↦ rw e (h, (h, hs))
  | inr e ↦ rw e (h, double_event-IsEvent k l hs)
]

-- An event that comes twice makes no difference.
next_state-repeated :
    {qsort : (Event → Event → ℤ) → List Event → List Event}
    → IsQsort qsort
    → (ini : State) (ev : Event) (evs : List Event) → All IsEvent (ev ∷ evs)
    → next_state qsort ini (ev ∷ ev ∷ evs) ≡ next_state qsort ini (ev ∷ evs)
next_state-repeated {qsort} q ini ev evs (h, hs) =
    let once = sort_events qsort (ev ∷ evs) in
    let twice = sort_events qsort (ev ∷ ev ∷ evs) in
    let keys_once : Perm (map key once) (key ev ∷ map key evs) =
      Perm.map key (sort_events-perm q (ev ∷ evs)) in
    let keys_twice : Perm (map key twice) (key ev ∷ key ev ∷ map key evs) =
      Perm.map key (sort_events-perm q (ev ∷ ev ∷ evs)) in
    let known : Mem (key ev) (map key once) = (Perm.mem_iff keys_once).1 mem-cons_self in
    let doubled : Perm (map key twice) (double (key ev) (map key once)) = Perm.trans keys_twice (
      Perm.symm
        (Perm.trans (double-perm (key ev) (map key once) known) (Perm.cons (key ev) keys_once))) in
    let same_keys : map key twice ≡ map key (double_event (key ev) once) =
      IsAscending-eq_of_perm (keys-IsAscending q (ev ∷ ev ∷ evs) (h, (h, hs)))
        (double-IsAscending (key ev) (map key once) (keys-IsAscending q (ev ∷ evs) (h, hs))) doubled
      ∙ sym (map-double_event (key ev) once) in
    let alike : AllAlike twice (double_event (key ev) once) =
      keys→AllAlike twice (double_event (key ev) once)
        (sort_events-IsEvent q (ev ∷ ev ∷ evs) (h, (h, hs)))
        (double_event-IsEvent (key ev) once (sort_events-IsEvent q (ev ∷ evs) (h, hs))) same_keys in
    next_state-sorted qsort ini (ev ∷ ev ∷ evs)
    ∙ advance_sorted-AllAlike twice (double_event (key ev) once) alike ini
    ∙ advance_sorted-double_event (key ev) once ini
    ∙ sym (next_state-sorted qsort ini (ev ∷ evs))

pub SameEvents-IsEvent : {l r : List Event} → SameEvents l r → All IsEvent l ↔ All IsEvent r
SameEvents-IsEvent (reordered p) = (All-perm IsEvent-prop p, All-perm IsEvent-prop (Perm.symm p))
SameEvents-IsEvent (repeated ev l) = (λ h. h.1, λ h. (h.0, h))
SameEvents-IsEvent (reversed same) = let (f, g) = SameEvents-IsEvent same in (g, f)
SameEvents-IsEvent (through a b) =
    let (f, g) = SameEvents-IsEvent a in
    let (f', g') = SameEvents-IsEvent b in (λ h. f' (f h), λ h. g (g' h))

next_state-same :
    {qsort : (Event → Event → ℤ) → List Event → List Event}
    → IsQsort qsort
    → (ini : State) {l r : List Event} → SameEvents l r
    → All IsEvent l
    → next_state qsort ini l ≡ next_state qsort ini r
next_state-same q ini {l} {r} (reordered p) h = next_state-perm ini l r q q h p
next_state-same q ini (repeated ev l) h = next_state-repeated q ini ev l h.1
next_state-same q ini {l} {r} (reversed same) h =
    sym (next_state-same q ini same ((SameEvents-IsEvent same).1 h))
next_state-same q ini (through a b) h =
    next_state-same q ini a h ∙ next_state-same q ini b ((SameEvents-IsEvent a).0 h)

-- Lists that hold the same valid events, in any orders and any of them more than once, sorted by any
-- two routines that meet the contract of `qsort`, lead `advance_state` from one state to the same
-- next state (or both to an access out of bounds).
pub next_state-SameEvents :
    {qsort qsort' : (Event → Event → ℤ) → List Event → List Event} (ini : State)
    (evs evs' : List Event)
    → IsQsort qsort
    → IsQsort qsort'
    → All IsEvent evs
    → SameEvents evs evs'
    → next_state qsort ini evs ≡ next_state qsort' ini evs'
next_state-SameEvents ini evs evs' q q' h same =
    next_state-same q ini same h
    ∙ next_state-perm ini evs' evs' q q' ((SameEvents-IsEvent same).0 h) (Perm.refl evs')
