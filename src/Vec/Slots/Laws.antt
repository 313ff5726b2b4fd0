-- ===== src/Vec/Slots/Laws.antt =====
-- The laws of a vector's elements: what was set is got, and nothing else changes.
use sasd_protocols.Prelude.{
  ℕ, zero, suc, ◌+◌, ◌-◌, ◌*◌, ◌^◌, ◌≤◌, ◌<◌, ◌≡◌, ◌≢◌, ◌⊎◌, inl, inr, refl, ap, sym, ◌∙◌, List, [],
  ◌∷◌, ◌++◌, length, length-append, length-set, replicate, set, get_elem?, get_or, none, some, leb,
  lt→ltb, Bool-cases, Returns, true, arith,
}
use mathlib.Core.Path.{subst}
use native.Mathlib.Decide.{ℕ_discrete}
use native.Mathlib.Nat.{mul-le-mul}
use sasd_protocols.Prelude.Word.{mod64}
use sasd_protocols.Buffer.Types.{Allocator, Realloc, null, same, moved}
use sasd_protocols.Bvec.Laws.{Reallocs}
use sasd_protocols.Vec.Laws.{grow_count-Returns}
use sasd_protocols.Vec.Slots.{
  Slots, slots_get, slots_set, slots_grow, resized_to, assign, slots_create,
}

module _ {A : Type 0} where
  -- At least two elements, of a size that keeps the byte counts far below the end of `size_t`.
  pub record IsSlots (s : Slots A) : Type 0 where
    pub two : 2 ≤ length s.elems
    pub short : length s.elems ≤ 2 ^ 33
    pub elem_small : s.elem_size ≤ 2 ^ 20

  -- An element, or a blank one behind the end.
  abbrev pub element : Slots A → ℕ → A
  element s i = get_or s.elems i s.blank

  -- `t` has `a` at `i`, and everywhere else what `s` has.
  pub record SetAt (s : Slots A) (i : ℕ) (a : A) (t : Slots A) : Type 0 where
    pub valid : IsSlots t
    pub inside : i < length t.elems
    pub longer : length s.elems ≤ length t.elems
    pub same_blank : t.blank ≡ s.blank
    pub here : element t i ≡ a
    pub elsewhere : (j : ℕ) → j ≢ i → element t j ≡ element s j

  -- What holds of all elements, and of the one that is set, holds afterwards.
  pub SetAt-all :
      (Q : A → Type 0) {s t : Slots A} {i : ℕ} {a : A}
      → SetAt s i a t
      → Q a
      → ((j : ℕ) → Q (element s j))
      → (j : ℕ) → Q (element t j)
  SetAt-all Q {t = t} {i = i} set q qs j = elim (ℕ_discrete j i) [
    | yes e ↦ subst Q (sym (ap (element t) e ∙ set.here)) q
    | no ne ↦ subst Q (sym (set.elsewhere j ne)) (qs j)
  ]

  get_or-set : (xs : List A) (i : ℕ) (a d : A) → i < length xs → get_or (set xs i a) i d ≡ a
  get_or-set [] i a d h = absurd (omega arith)
  get_or-set (x ∷ xs) zero a d h = refl
  get_or-set (x ∷ xs) (suc i) a d h = get_or-set xs i a d (omega arith)

  get_or-set_other :
      (xs : List A) (i j : ℕ) (a d : A) → j ≢ i → get_or (set xs i a) j d ≡ get_or xs j d
  get_or-set_other [] i j a d h = refl
  get_or-set_other (x ∷ xs) zero zero a d h = absurd (h refl)
  get_or-set_other (x ∷ xs) zero (suc j) a d h = refl
  get_or-set_other (x ∷ xs) (suc i) zero a d h = refl
  get_or-set_other (x ∷ xs) (suc i) (suc j) a d h = get_or-set_other xs i j a d λ e. h (ap suc e)

  get_or-replicate : (n j : ℕ) (d : A) → get_or (replicate n d) j d ≡ d
  get_or-replicate zero j d = refl
  get_or-replicate (suc n) zero d = refl
  get_or-replicate (suc n) (suc j) d = get_or-replicate n j d

  -- Blank elements at the end make no difference.
  get_or-blanks : (xs : List A) (n j : ℕ) (d : A) → get_or (xs ++ replicate n d) j d ≡ get_or xs j d
  get_or-blanks [] n j d = get_or-replicate n j d
  get_or-blanks (x ∷ xs) n zero d = refl
  get_or-blanks (x ∷ xs) n (suc j) d = get_or-blanks xs n j d

  length-replicate : (n : ℕ) (d : A) → length (replicate n d) ≡ n
  length-replicate zero d = refl
  length-replicate (suc n) d = ap suc (length-replicate n d)

  pub slots_get-element :
      (s : Slots A) (i : ℕ) → i < length s.elems → slots_get s i ≡ some (element s i)
  unfolding slots_get
  slots_get-element s i h = inside s.elems i s.blank h
    where
      inside : (xs : List A) (i : ℕ) (d : A) → i < length xs → get_elem? xs i ≡ some (get_or xs i d)
      inside [] i d h = absurd (omega arith)
      inside (x ∷ xs) zero d h = refl
      inside (x ∷ xs) (suc i) d h = inside xs i d (omega arith)

  -- Behind the end there is -1, and the element counts as blank.
  pub slots_get_cases :
      (s : Slots A) (i : ℕ)
      → ((i < length s.elems) × (slots_get s i ≡ some (element s i)))
        ⊎ ((slots_get s i ≡ none) × (element s i ≡ s.blank))
  unfolding slots_get
  slots_get_cases s i = cases s.elems i s.blank
    where
      cases :
          (xs : List A) (i : ℕ) (d : A)
          → ((i < length xs) × (get_elem? xs i ≡ some (get_or xs i d)))
            ⊎ ((get_elem? xs i ≡ none) × (get_or xs i d ≡ d))
      cases [] i d = inr (refl, refl)
      cases (x ∷ xs) zero d = inl (omega arith, refl)
      cases (x ∷ xs) (suc i) d = elim (cases xs i d) [
        | inl (h, e) ↦ inl (omega arith, e)
        | inr e ↦ inr e
      ]

  pub assign-SetAt :
      (s : Slots A) (i : ℕ) (a : A) → IsSlots s → i < length s.elems → SetAt s i a (assign s i a)
  assign-SetAt s i a v h =
      let len = length-set s.elems i a in
      record {
        valid = record {
          two = omega (arith, len, v.two);
          short = omega (arith, len, v.short);
          elem_small = v.elem_small;
        };
        inside = omega (arith, len);
        longer = omega (arith, len);
        same_blank = refl;
        here = get_or-set s.elems i a s.blank h;
        elsewhere = λ j ne. get_or-set_other s.elems i j a s.blank ne;
      }

  grown : Slots A → ℕ → Slots A
  grown s count = record s { elems = s.elems ++ replicate (count - length s.elems) s.blank }

  resized_to_lem :
      (s : Slots A) (count : ℕ) (r : Realloc)
      → r ≢ null
      → resized_to s count r ≡ some (grown s count)
  unfolding resized_to grown
  resized_to_lem s count null h = absurd (h refl)
  resized_to_lem s count same h = refl
  resized_to_lem s count moved h = refl

  length-grown :
      (s : Slots A) (count : ℕ) → length s.elems ≤ count → length (grown s count).elems ≡ count
  unfolding grown
  length-grown s count h = omega (
    arith,
    length-append s.elems (replicate (count - length s.elems) s.blank),
    length-replicate (count - length s.elems) s.blank,
  )

  element-grown : (s : Slots A) (count j : ℕ) → element (grown s count) j ≡ element s j
  unfolding grown
  element-grown s count j = get_or-blanks s.elems (count - length s.elems) j s.blank

  grow_lem :
      (heap : Allocator) (s : Slots A) (i : ℕ)
      → Reallocs heap
      → IsSlots s
      → i < 2 ^ 32
      → length s.elems ≤ i
      → Returns
          (λ t.
            IsSlots t
            × (i < length t.elems)
            × ((j : ℕ) → element t j ≡ element s j)
            × (length s.elems ≤ length t.elems)
            × (t.blank ≡ s.blank))
          (slots_grow heap s i)
  unfolding slots_grow grown
  grow_lem heap s i r v small h =
      let (count, q, (above, more, bound)) =
        grow_count-Returns (i + 2) i (length s.elems) v.two (omega arith) (omega (arith, v.short))
          (omega arith) (omega arith) in
      let below : count ≤ 2 ^ 33 = elim bound [ inl b ↦ omega arith | inr b ↦ omega arith ] in
      let bytes : count * s.elem_size ≤ 2 ^ 33 * 2 ^ 20 = mul-le-mul below v.elem_small in
      let fits = lt→ltb (count * s.elem_size) mod64 (omega arith) in
      let len = length-grown s count more in
      rw
        (
          q,
          fits,
          resized_to_lem s count (heap.realloc (count * s.elem_size)) (r (count * s.elem_size)),
        )
        (
          grown s count,
          refl,
          (
            record {
              two = omega (arith, len, v.two);
              short = omega (arith, len);
              elem_small = v.elem_small;
            },
            omega (arith, len),
            element-grown s count,
            omega (arith, len),
            refl,
          ),
        )

  -- A set element is got back, all others stay as they were, and a vector never gets shorter.
  pub slots_set-SetAt :
      (heap : Allocator) (s : Slots A) (i : ℕ) (a : A)
      → Reallocs heap
      → IsSlots s
      → i < 2 ^ 32
      → Returns (SetAt s i a) (slots_set heap s i a)
  unfolding slots_set
  slots_set-SetAt heap s i a r v small = elim (Bool-cases (leb (length s.elems) i)) [
    | inl e ↦
        let (t, q, (valid, inside, kept, longer, blank)) =
          grow_lem heap s i r v small (ground arith) in
        let set = assign-SetAt t i a valid inside in
        rw (e, q)
          (
            assign t i a,
            refl,
            record {
              valid = set.valid;
              inside = set.inside;
              longer = omega (arith, longer, set.longer);
              same_blank = set.same_blank ∙ blank;
              here = set.here;
              elsewhere = λ j ne. set.elsewhere j ne ∙ kept j;
            },
          )
    | inr e ↦ rw e (assign s i a, refl, assign-SetAt s i a v (ground arith))
  ]

  -- A fresh vector has as many elements as were asked for, all blank.
  pub slots_create-IsSlots :
      (heap : Allocator) (n elem_size : ℕ) (blank : A)
      → heap.malloc (n * elem_size) ≡ true
      → 2 ≤ n
      → n ≤ 2 ^ 33
      → elem_size ≤ 2 ^ 20
      → Returns
          (λ s. IsSlots s × (s.blank ≡ blank) × ((j : ℕ) → element s j ≡ blank))
          (slots_create heap n elem_size blank)
  unfolding slots_create
  slots_create-IsSlots heap n elem_size blank m two short small = rw m (
    record { elem_size = elem_size; blank = blank; elems = replicate n blank },
    refl,
    (
      record {
        two = omega (arith, length-replicate n blank);
        short = omega (arith, length-replicate n blank);
        elem_small = small;
      },
      refl,
      λ j. get_or-replicate n j blank,
    ),
  )
