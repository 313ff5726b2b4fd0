-- ===== src/Bvec/Success.antt =====
-- What an append of src/bvec.c that succeeds has done, whatever room there was.
use mathlib.Core.Path.{subst}
use sasd_protocols.Prelude.{
  ℕ, ◌+◌, ◌/◌, ◌^◌, ◌<◌, ◌≡◌, ◌≢◌, ◌⊎◌, refl, sym, ap, ◌∙◌, List, [], ◌++◌, length, none, some,
  Option-cases, Bool-cases, inl, inr, leb, ltb, arith,
}
use sasd_protocols.Buffer.Types.{Allocator, Realloc, null, same, moved, add_size, sub_size}
use sasd_protocols.Bvec.{Bvec, bv_create, resized, bv_grow, bv_write, bv_append, contents}
use sasd_protocols.Bvec.Laws.{IsBvec, Appended, grown_size, write-Appended}
use sasd_protocols.Bvec.Shift.{bv_create-IsBvec}

-- `realloc` fails for sizes that do not fit into memory, so sums of sizes do not overflow.
abbrev pub IsFinite : Allocator → Type 0
IsFinite heap = (n : ℕ) → heap.realloc n ≢ null → n < 2 ^ 62

pub same_value : {A : Type 0} {a b : A} → some a ≡ some b → a ≡ b
same_value e = cc

no_value : {A : Type 0} {a : A} → none ≡ some a → ⊥
no_value e = ground arith

abbrev resized_to : Bvec → ℕ → Bvec
resized_to v n = record v { size = n; allocated = n }

resized-some :
    (v g : Bvec) (n : ℕ) (result : Realloc)
    → resized v n result ≡ some g
    → (result ≢ null) × (resized_to v n ≡ g)
unfolding resized
resized-some v g n null e = absurd (ground arith)
resized-some v g n same e = ((λ q. ground arith), same_value e)
resized-some v g n moved e = ((λ q. ground arith), same_value e)

module _ (heap : Allocator) where
  write-some : (v w : Bvec) (xs : List ℕ) → IsBvec v → bv_write heap v xs ≡ some w → Appended v xs w
  unfolding bv_write
  write-some v w xs h e = elim (Bool-cases (leb (v.wptr + length xs) v.allocated)) [
    | inl f ↦
        let (u, q, (a, kept)) = write-Appended heap v xs h (ground (arith, h.block)) in
        subst (Appended v xs) (same_value (sym q ∙ e)) a
    | inr f ↦ absurd (no_value (let q : bv_write heap v xs ≡ none = rw f refl in sym q ∙ e))
  ]

  -- The block grows to a size that fits into memory.
  grow-some :
      (v g : Bvec)
      → IsBvec v
      → IsFinite heap
      → bv_grow heap v ≡ some g
      → (grown_size v < 2 ^ 62) × (resized_to v (grown_size v) ≡ g)
  unfolding bv_grow
  grow-some v g h finite e =
      let sum : add_size v.size (v.size / 2) ≡ grown_size v = omega (arith, h.small) in
      let (q, r) =
        resized-some v g (grown_size v) (heap.realloc (grown_size v))
          (sym (ap (λ n. resized v n (heap.realloc n)) sum) ∙ e) in
      (finite (grown_size v) q, r)

  grown-IsBvec :
      (v : Bvec) → IsBvec v → grown_size v < 2 ^ 62 → IsBvec (resized_to v (grown_size v))
  grown-IsBvec v h small = record {
    written = h.written;
    inside = omega (arith, h.inside, h.block);
    block = refl;
    small = small;
  }

  append-cases :
      (v w : Bvec) (xs : List ℕ)
      → bv_append heap v xs ≡ some w
      → ((g : Bvec) × (bv_grow heap v ≡ some g) × (bv_write heap g xs ≡ some w))
        ⊎ (bv_write heap v xs ≡ some w)
  unfolding bv_append
  append-cases v w xs e = elim (Bool-cases (ltb (sub_size v.size v.wptr) (length xs))) [
    | inl f ↦ elim (Option-cases (bv_grow heap v)) [
      | inl n ↦ absurd (no_value (let q : bv_append heap v xs ≡ none = rw (f, n) refl in sym q ∙ e))
      | inr (g, q) ↦
          inl (g, q, let t : bv_append heap v xs ≡ bv_write heap g xs = rw (f, q) refl in sym t ∙ e)
    ]
    | inr f ↦ inr (let t : bv_append heap v xs ≡ bv_write heap v xs = rw f refl in sym t ∙ e)
  ]

  -- If an append succeeds, then the bytes stand behind what the vector held, and the vector is
  -- still well-formed.
  pub bv_append-some :
      (v w : Bvec) (xs : List ℕ)
      → IsBvec v
      → IsFinite heap
      → bv_append heap v xs ≡ some w
      → IsBvec w × (contents w ≡ contents v ++ xs)
  unfolding contents
  bv_append-some v w xs h finite e = elim (append-cases v w xs e) [
    | inl (g, q, r) ↦
        let (small, t) = grow-some v g h finite q in
        let a =
          write-some (resized_to v (grown_size v)) w xs (grown-IsBvec v h small)
            (ap (λ u. bv_write heap u xs) t ∙ r) in
        (a.valid, a.appended)
    | inr r ↦ let a = write-some v w xs h r in (a.valid, a.appended)
  ]

  -- A vector that was created is well-formed and empty.
  pub bv_create-some :
      (v : Bvec) (size : ℕ)
      → size < 2 ^ 62
      → bv_create heap size ≡ some v
      → IsBvec v × (contents v ≡ [])
  unfolding bv_create
  bv_create-some v size small e = elim (Bool-cases (heap.malloc size)) [
    | inl m ↦
        let (w, q, (valid, empty, sized)) = bv_create-IsBvec heap size m small in
        let same = same_value (sym q ∙ e) in
        (subst IsBvec same valid, subst (λ u. contents u ≡ []) same empty)
    | inr m ↦ absurd (no_value (let q : bv_create heap size ≡ none = rw m refl in sym q ∙ e))
  ]
