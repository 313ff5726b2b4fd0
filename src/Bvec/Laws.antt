-- ===== src/Bvec/Laws.antt =====
-- When `bv_append` appends, and when it writes behind its block.
use sasd_protocols.Prelude.{
  ℕ, zero, suc, ◌+◌, ◌-◌, ◌/◌, ◌^◌, ◌≤◌, ◌<◌, ◌≡◌, refl, ◌≢◌, ap, ◌∙◌, List, [], ◌∷◌, ◌++◌, length,
  take, drop, none, some, Returns, arith, length-append, take-append_length, append_assoc,
  Bool-cases, inl, inr, ltb, lt→leb_false, lt→ltb, le→leb, true,
}
use sasd_protocols.Buffer.Types.{
  Allocator, Realloc, null, same, moved, add_size, sub_size, write_bytes,
}
use sasd_protocols.Bvec.{Bvec, contents, resized, bv_grow, bv_write, bv_append}

pub record IsBvec (v : Bvec) : Type 0 where
  pub written : v.wptr ≤ length v.bytes
  pub inside : length v.bytes ≤ v.allocated
  pub block : v.allocated ≡ v.size
  pub small : v.size < 2 ^ 62

-- `realloc` does not fail.
abbrev pub Reallocs : Allocator → Type 0
Reallocs heap = (n : ℕ) → heap.realloc n ≢ null

-- The size that one growth gives.
abbrev pub grown_size : Bvec → ℕ
grown_size v = v.size + v.size / 2

pub length-take : (n : ℕ) (xs : List ℕ) → n ≤ length xs → length (take n xs) ≡ n
length-take zero xs h = refl
length-take (suc n) [] h = absurd (omega arith)
length-take (suc n) (x ∷ xs) h = ap suc (length-take n xs (omega arith))

pub length-drop : (n : ℕ) (xs : List ℕ) → length (drop n xs) ≡ length xs - n
length-drop zero xs = omega arith
length-drop (suc n) [] = omega arith
length-drop (suc n) (x ∷ xs) = omega (arith, length-drop n xs)

pub length-contents : (v : Bvec) → IsBvec v → length (contents v) ≡ v.wptr
unfolding contents
length-contents v h = length-take v.wptr v.bytes h.written

take-write :
    (bs xs : List ℕ) (k : ℕ)
    → k ≤ length bs
    → take (k + length xs) (write_bytes bs k xs) ≡ take k bs ++ xs
take-write bs xs k h =
    let e : k + length xs ≡ length (take k bs ++ xs) =
      omega (arith, length-append (take k bs) xs, length-take k bs h) in
    rw (← append_assoc (take k bs) xs (drop (k + length xs) bs)) (
      ap (λ n. take n ((take k bs ++ xs) ++ drop (k + length xs) bs)) e
      ∙ take-append_length (take k bs ++ xs) (drop (k + length xs) bs))

length-write :
    (bs xs : List ℕ) (k n : ℕ)
    → k ≤ length bs
    → length bs ≤ n
    → k + length xs ≤ n
    → (k + length xs ≤ length (write_bytes bs k xs)) × (length (write_bytes bs k xs) ≤ n)
length-write bs xs k n h l m = omega (
  arith,
  length-append (take k bs) (xs ++ drop (k + length xs) bs),
  length-append xs (drop (k + length xs) bs),
  length-take k bs h,
  length-drop (k + length xs) bs,
)

-- What an append leaves behind.
pub record Appended (v : Bvec) (xs : List ℕ) (w : Bvec) : Type 0 where
  pub valid : IsBvec w
  pub appended : contents w ≡ contents v ++ xs
  pub length_now : w.wptr ≡ v.wptr + length xs
  pub larger : v.size ≤ w.size
  pub bounded : w.size ≤ grown_size v

resized_lem :
    (v : Bvec) (n : ℕ) (result : Realloc)
    → result ≢ null
    → resized v n result ≡ some (record v { size = n; allocated = n })
unfolding resized
resized_lem v n null q = absurd (q refl)
resized_lem v n same q = refl
resized_lem v n moved q = refl

appends :
    (w v : Bvec) (xs : List ℕ)
    → IsBvec v
    → add_size v.wptr (length xs) ≡ v.wptr + length xs
    → w ≡ record v { bytes = write_bytes v.bytes v.wptr xs; wptr = add_size v.wptr (length xs) }
    → contents w ≡ contents v ++ xs
unfolding contents
appends w v xs h sum e = rw (e, sum) (take-write v.bytes xs v.wptr h.written)

module _ (heap : Allocator) where
  pub write-Appended :
      (v : Bvec) (xs : List ℕ)
      → IsBvec v
      → v.wptr + length xs ≤ v.size
      → Returns (λ w. Appended v xs w × (w.size ≡ v.size)) (bv_write heap v xs)
  unfolding bv_write
  write-Appended v xs h k =
      let fits : v.wptr + length xs ≤ v.allocated = omega (arith, h.block) in
      let sum : add_size v.wptr (length xs) ≡ v.wptr + length xs = omega (arith, h.small) in
      let w : Bvec = record v {
        bytes = write_bytes v.bytes v.wptr xs;
        wptr = add_size v.wptr (length xs);
      } in
      let (lo, hi) = length-write v.bytes xs v.wptr v.allocated h.written h.inside fits in
      rw (le→leb (v.wptr + length xs) v.allocated fits) (
        w,
        refl,
        (
          record {
            valid = record { written = rw sum lo; inside = hi; block = h.block; small = h.small };
            appended = appends w v xs h sum refl;
            length_now = sum;
            larger = omega arith;
            bounded = omega arith;
          },
          refl,
        ),
      )

  -- `realloc` gives the block half as much again.
  grow_lem :
      (v : Bvec)
      → IsBvec v
      → Reallocs heap
      → bv_grow heap v ≡ some (record v { size = grown_size v; allocated = grown_size v })
  unfolding bv_grow
  grow_lem v h r =
      let sum : add_size v.size (v.size / 2) ≡ grown_size v = omega (arith, h.small) in
      ap (λ n. resized v n (heap.realloc n)) sum
      ∙ resized_lem v (grown_size v) (heap.realloc (grown_size v)) (r (grown_size v))

  -- With room after one growth, an append succeeds and keeps a well-formed vector.
  pub bv_append-Appended :
      (v : Bvec) (xs : List ℕ)
      → IsBvec v
      → Reallocs heap
      → v.size + v.size / 2 < 2 ^ 62
      → v.wptr + length xs ≤ grown_size v
      → Returns (Appended v xs) (bv_append heap v xs)
  unfolding bv_append contents
  bv_append-Appended v xs h r small room =
      let left : sub_size v.size v.wptr ≡ v.size - v.wptr =
        omega (arith, h.small, h.written, h.inside, h.block) in
      elim (Bool-cases (ltb (sub_size v.size v.wptr) (length xs))) [
        | inl e ↦
            let g : Bvec = record v { size = grown_size v; allocated = grown_size v } in
            let valid : IsBvec g = record {
              written = h.written;
              inside = omega (arith, h.inside, h.block);
              block = refl;
              small = small;
            } in
            let (w, q, (a, kept)) = write-Appended g xs valid room in
            rw (e, grow_lem v h r)
              (
                w,
                q,
                record {
                  valid = a.valid;
                  appended = a.appended;
                  length_now = a.length_now;
                  larger = omega (arith, a.larger);
                  bounded = omega (arith, kept);
                },
              )
        | inr e ↦ let (w, q, (a, kept)) = write-Appended v xs h (ground arith) in rw e (w, q, a)
      ]

  -- Without that room, it writes behind its block: the vector grows only once, by half.
  pub bv_append-overflow :
      (v : Bvec) (xs : List ℕ)
      → IsBvec v
      → Reallocs heap
      → grown_size v < v.wptr + length xs
      → bv_append heap v xs ≡ none
  unfolding bv_append bv_write
  bv_append-overflow v xs h r over =
      let left : sub_size v.size v.wptr ≡ v.size - v.wptr =
        omega (arith, h.small, h.written, h.inside, h.block) in
      let short : ltb (sub_size v.size v.wptr) (length xs) ≡ true =
        rw left (lt→ltb (v.size - v.wptr) (length xs) (omega arith)) in
      rw (short, grow_lem v h r, lt→leb_false (v.wptr + length xs) (grown_size v) over) refl
