-- ===== src/Rollback/Cells/Laws.antt =====
-- What pushing events does to the vectors of blocks.
use sasd_protocols.Prelude.{
  ℕ, ◌^◌, ◌<◌, ◌≡◌, ◌≢◌, inl, inr, refl, ap, sym, ◌∙◌, List, [], ◌∷◌, ◌++◌, append-nil,
  append_assoc, length, All, Option, none, some, ◌>>=◌, ◌==◌, ◌||◌, Bool-cases, Returns, false,
  arith,
}
use mathlib.Core.Path.{subst}
use sasd_protocols.Buffer.Types.{Allocator, null, same}
use sasd_protocols.Bvec.Laws.{Reallocs}
use sasd_protocols.Packets.Serialize.Whole.{Grants}
use sasd_protocols.Balls.Types.{Event}
use sasd_protocols.Vec.Slots.{Slots, slots_get, slots_set, assign}
use sasd_protocols.Vec.Slots.Laws.{
  IsSlots, SetAt-all, element, assign-SetAt, slots_set-SetAt, slots_get_cases,
}
use sasd_protocols.Rollback.Cells.{
  EvVec, Cell, absent, block, dangling, push_grown, ev_vec_create, ev_vec_push, push_all, open_at,
  push_opened, add_events,
}

-- `malloc` and `realloc` do not fail, and `realloc` grows a block where it is.
pub record GrowsInPlace (heap : Allocator) : Type 0 where
  pub grants : Grants heap
  pub in_place : (n : ℕ) → heap.realloc n ≡ same

pub GrowsInPlace-Reallocs : (heap : Allocator) → GrowsInPlace heap → Reallocs heap
GrowsInPlace-Reallocs heap h n e =
    absurd (let q : same ≡ null = sym (h.in_place n) ∙ e in ground arith)

abbrev pub cell_events : Cell → List Event
cell_events absent = []
cell_events (block v) = v.evs
cell_events dangling = []

abbrev pub events_at : Slots Cell → ℕ → List Event
events_at s i = cell_events (element s i)

-- A pointer to null or to a block with events that satisfy `P`.
abbrev pub IsSound : (Event → Type 0) → Cell → Type 0
IsSound P absent = Unit
IsSound P (block v) = All P v.evs
IsSound P dangling = ⊥

pub record IsCells (P : Event → Type 0) (s : Slots Cell) : Type 0 where
  pub slots : IsSlots s
  pub blank_absent : s.blank ≡ absent
  pub sound : (i : ℕ) → IsSound P (element s i)

-- The events at `i` are followed by new ones; nothing else changes.
pub record Added (P : Event → Type 0) (s : Slots Cell) (i : ℕ) (evs : List Event) (t : Slots Cell)
    : Type 0 where
  pub cells : IsCells P t
  pub here : events_at t i ≡ events_at s i ++ evs
  pub elsewhere : (j : ℕ) → j ≢ i → events_at t j ≡ events_at s j

pub All-append {ℓ κ} :
    {A : Type ℓ} (P : A → Type κ) (xs ys : List A) → All P xs → All P ys → All P (xs ++ ys)
All-append P [] ys h k = k
All-append P (x ∷ xs) ys (h, hs) k = (h, All-append P xs ys hs k)

module _ (heap : Allocator) (h : GrowsInPlace heap) where
  ev_vec_push_lem :
      (v : EvVec) (ev : Event)
      → Returns (λ r. (r.0.evs ≡ v.evs ++ (ev ∷ [])) × (r.1 ≡ false)) (ev_vec_push heap v ev)
  unfolding ev_vec_push push_grown
  ev_vec_push_lem v ev = elim (Bool-cases (length v.evs == v.count)) [
    | inl e ↦ rw (e, h.in_place) (_, refl, (refl, refl))
    | inr e ↦ rw e (_, refl, (refl, refl))
  ]

  push_all_lem :
      (v : EvVec) (evs : List Event)
      → Returns (λ r. (r.0.evs ≡ v.evs ++ evs) × (r.1 ≡ false)) (push_all heap v evs)
  unfolding push_all
  push_all_lem v [] = ((v, false), refl, (sym (append-nil v.evs), refl))
  push_all_lem v (ev ∷ evs) =
      let (r, q, (e, m)) = ev_vec_push_lem v ev in
      let (r', q', (e', m')) = push_all_lem r.0 evs in
      rw (q, q')
        (
          (r'.0, r.1 || r'.1),
          refl,
          (e' ∙ ap (λ xs. xs ++ evs) e ∙ append_assoc v.evs (ev ∷ []) evs, rw (m, m') refl),
        )

  -- What `open_at` makes of a vector: a block at `i`, with the events that were there.
  record Opened (P : Event → Type 0) (s : Slots Cell) (i : ℕ) (r : EvVec × Slots Cell)
      : Type 0 where
    cells : IsCells P r.1
    inside : i < length r.1.elems
    same_events : r.0.evs ≡ events_at s i
    sound : All P r.0.evs
    elsewhere : (j : ℕ) → j ≢ i → events_at r.1 j ≡ events_at s j

  module _ (P : Event → Type 0) (s : Slots Cell) (i : ℕ) (c : IsCells P s)
      (small : i < 2 ^ 32) where
    abbrev created : EvVec
    created = record { count = 8; evs = [] }

    open_new :
        element s i ≡ absent
        → Returns
            (Opened P s i)
            (ev_vec_create heap >>= λ v. slots_set heap s i (block v) >>= λ t. some (v, t))
    unfolding ev_vec_create
    open_new e =
        let (t, q, a) =
          slots_set-SetAt heap s i (block created) (GrowsInPlace-Reallocs heap h) c.slots small in
        rw (h.grants 136, q)
          (
            (created, t),
            refl,
            record {
              cells = record {
                slots = a.valid;
                blank_absent = a.same_blank ∙ c.blank_absent;
                sound = SetAt-all (IsSound P) a tt c.sound;
              };
              inside = a.inside;
              same_events = sym (ap cell_events e);
              sound = tt;
              elsewhere = λ j ne. ap cell_events (a.elsewhere j ne);
            },
          )

    open_cell :
        (cell : Cell)
        → element s i ≡ cell
        → i < length s.elems
        → Returns (Opened P s i) (open_at heap s i (some cell))
    unfolding open_at
    open_cell absent e inside = open_new e
    open_cell (block v) e inside = (
      (v, s),
      refl,
      record {
        cells = c;
        inside = inside;
        same_events = sym (ap cell_events e);
        sound = subst (IsSound P) e (c.sound i);
        elsewhere = λ j ne. refl;
      },
    )
    open_cell dangling e inside = absurd (subst (IsSound P) e (c.sound i))

    open_at_lem : Returns (Opened P s i) (open_at heap s i (slots_get s i))
    unfolding open_at
    open_at_lem = elim (slots_get_cases s i) [
      | inl (inside, e) ↦ rw e (open_cell (element s i) refl inside)
      | inr (e, b) ↦ rw e (open_new (b ∙ c.blank_absent))
    ]

    -- What is pushed into a block that was opened comes behind what it held.
    pushed_lem :
        (m : Option (EvVec × Slots Cell)) (evs : List Event)
        → All P evs
        → Returns (Opened P s i) m
        → Returns
            (λ r. Added P s i evs r.1 × (r.0.evs ≡ events_at s i ++ evs))
            (m >>= push_opened heap i evs)
    unfolding push_opened
    pushed_lem m evs ps (r, q, o) =
        let (r', q', (e, moves)) = push_all_lem r.0 evs in
        let a = assign-SetAt r.1 i (block r'.0) o.cells.slots o.inside in
        let all : r'.0.evs ≡ events_at s i ++ evs = e ∙ ap (λ xs. xs ++ evs) o.same_events in
        rw (q, q', moves)
          (
            (r'.0, assign r.1 i (block r'.0)),
            refl,
            (
              record {
                cells = record {
                  slots = a.valid;
                  blank_absent = a.same_blank ∙ o.cells.blank_absent;
                  sound =
                      SetAt-all (IsSound P) a
                        (subst (All P) (sym e) (All-append P r.0.evs evs o.sound ps)) o.cells.sound;
                };
                here = ap cell_events a.here ∙ all;
                elsewhere = λ j ne. ap cell_events (a.elsewhere j ne) ∙ o.elsewhere j ne;
              },
              all,
            ),
          )

    -- Events that are pushed come behind those that the element had, if blocks grow in place.
    pub add_events-Added :
        (evs : List Event)
        → All P evs
        → Returns
            (λ r. Added P s i evs r.1 × (r.0.evs ≡ events_at s i ++ evs))
            (add_events heap s i evs)
    unfolding add_events
    add_events-Added evs ps = pushed_lem (open_at heap s i (slots_get s i)) evs ps open_at_lem

    -- The same into a block that is created.
    pub open_new-Added :
        (evs : List Event)
        → All P evs
        → element s i ≡ absent
        → Returns
            (λ r. Added P s i evs r.1 × (r.0.evs ≡ events_at s i ++ evs))
            (open_at heap s i none >>= push_opened heap i evs)
    unfolding open_at
    open_new-Added evs ps e = pushed_lem (open_at heap s i none) evs ps (open_new e)
