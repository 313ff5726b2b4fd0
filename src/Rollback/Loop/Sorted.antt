-- ===== src/Rollback/Loop/Sorted.antt =====
-- How the loops of src/game_timewarp.c read the blocks of events, and how `qsort` leaves them.
use mathlib.Core.List.{Perm}
use mathlib.Core.List.Perm
use native.Mathlib.Decide.{ℕ_discrete}
use sasd_protocols.Prelude.{
  length, ℕ, suc, ◌+◌, ◌^◌, ◌<◌, ◌≡◌, inl, inr, refl, sym, ap, ◌∙◌, List, pos, ◌+ℤ◌, ◌-ℤ◌, Option,
  none, some, All, arith,
}
use sasd_protocols.Prelude.Word.{bits, signed-bits_32}
use sasd_protocols.Packets.Serialize.Whole.{pos-add}
use sasd_protocols.Balls.Types.{State, Event}
use sasd_protocols.Balls.Collide.{i32}
use sasd_protocols.Balls.Sorting.{All-perm}
use sasd_protocols.Vec.Slots.{Slots, slots_get}
use sasd_protocols.Vec.Slots.Laws.{IsSlots, SetAt-all, element, assign-SetAt, slots_get_cases}
use sasd_protocols.Rollback.Cells.{Cell, absent, block, dangling, index}
use sasd_protocols.Rollback.Cells.Laws.{cell_events, events_at, IsSound, IsCells}
use sasd_protocols.Rollback.Loop.{events_in, left_sorted}

pub index-pos : (n : ℕ) → n < 2 ^ 63 → index (pos n) ≡ n
unfolding bits
index-pos n h = omega arith

pub i32-suc : (n : ℕ) → n < 2 ^ 30 → i32 (pos n +ℤ pos 1) ≡ pos (suc n)
i32-suc n h =
    let next : n + 1 ≡ suc n = omega arith in
    rw (pos-add n 1, next) (signed-bits_32 (pos (suc n)) (omega arith, omega arith))

pos-sub_one : (n : ℕ) → pos (suc n) -ℤ pos 1 ≡ pos n
unfolding ◌-ℤ◌
pos-sub_one n = ground arith

pub i32_pred : (n : ℕ) → n < 2 ^ 30 → i32 (pos (suc n) -ℤ pos 1) ≡ pos n
i32_pred n h = rw (pos-sub_one n) (signed-bits_32 (pos n) (omega arith, omega arith))

-- A vector of states in which nothing is left uninitialised but what was not set.
pub record IsStates (s : Slots (Option State)) : Type 0 where
  pub slots : IsSlots s
  pub blank_none : s.blank ≡ none

module _ {s : Slots Cell} {P : Event → Type 0} (c : IsCells P s) where
  pub events_in_lem : (i : ℕ) → events_in (slots_get s i) ≡ some (events_at s i)
  unfolding events_in
  events_in_lem i = elim (slots_get_cases s i) [
    | inl (inside, e) ↦ rw e (of_cell (element s i) (c.sound i))
    | inr (e, b) ↦ rw e (ap (λ x. some (cell_events x)) (sym (b ∙ c.blank_absent)))
  ]
    where
      of_cell : (x : Cell) → IsSound P x → events_in (some x) ≡ some (cell_events x)
      of_cell absent h = refl
      of_cell (block v) h = refl
      of_cell dangling h = absurd h

  module _ (is_prop : (ev : Event) → IsProp (P ev)) (i : ℕ) (evs : List Event)
      (p : Perm evs (events_at s i)) where
    -- What `qsort` leaves in a block: the same events, perhaps in another order.
    pub left_sorted_lem :
        IsCells P (left_sorted s i (slots_get s i) evs)
        × ((j : ℕ) → Perm (events_at (left_sorted s i (slots_get s i) evs) j) (events_at s j))
    unfolding left_sorted
    left_sorted_lem = elim (slots_get_cases s i) [
      | inl (inside, e) ↦ rw e (of_cell (element s i) refl inside)
      | inr (e, b) ↦ rw e (c, λ j. Perm.refl (events_at s j))
    ]
      where
        of_cell :
            (x : Cell)
            → element s i ≡ x
            → i < length s.elems
            → IsCells P (left_sorted s i (some x) evs)
              × ((j : ℕ) → Perm (events_at (left_sorted s i (some x) evs) j) (events_at s j))
        of_cell absent e inside = (c, λ j. Perm.refl (events_at s j))
        of_cell dangling e inside = (c, λ j. Perm.refl (events_at s j))
        of_cell (block v) e inside =
            let a = assign-SetAt s i (block (record v { evs = evs })) c.slots inside in
            let sound = All-perm is_prop (Perm.symm p) (events_sound (element s i) (c.sound i)) in
            (
              record {
                slots = a.valid;
                blank_absent = a.same_blank ∙ c.blank_absent;
                sound = SetAt-all (IsSound P) a sound c.sound;
              },
              λ j. elim (ℕ_discrete j i) [
                | yes q ↦ rw (q, a.here) p
                | no ne ↦ rw (a.elsewhere j ne) (Perm.refl (events_at s j))
              ],
            )
          where
            events_sound : (x : Cell) → IsSound P x → All P (cell_events x)
            events_sound absent h = tt
            events_sound (block v) h = h
            events_sound dangling h = absurd h
