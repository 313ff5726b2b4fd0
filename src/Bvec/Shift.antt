-- ===== src/Bvec/Shift.antt =====
-- The creation of a byte vector in src/bvec.c, and the removal of data from its front.
use sasd_protocols.Prelude.{
  ℕ, ◌+◌, ◌-◌, ◌^◌, ◌≤◌, ◌<◌, ◌≡◌, refl, List, [], ◌++◌, length, take, drop, Returns, arith,
  length-append, take-append_length, true,
}
use sasd_protocols.Buffer.Types.{Allocator, write_bytes}
use sasd_protocols.Bvec.{Bvec, contents, bv_create, bv_shift}
use sasd_protocols.Bvec.Laws.{IsBvec, length-take, length-drop}

length-write_start :
    (bs xs : List ℕ) → length xs ≤ length bs → length (write_bytes bs 0 xs) ≡ length bs
length-write_start bs xs h =
    let rest = drop (0 + length xs) bs in
    let e : length (xs ++ rest) ≡ length bs =
      omega (arith, length-append xs rest, length-drop (0 + length xs) bs) in
    e

-- Dropping data from the front leaves the rest.
pub bv_shift-contents :
    (n : ℕ) (v : Bvec)
    → IsBvec v
    → n ≤ v.wptr
    → IsBvec (bv_shift n v) × (contents (bv_shift n v) ≡ drop n (contents v))
unfolding bv_shift contents
bv_shift-contents n v h le =
    let len : length (drop n (take v.wptr v.bytes)) ≡ v.wptr - n =
      omega (arith, length-drop n (take v.wptr v.bytes), length-take v.wptr v.bytes h.written) in
    let same_length =
      length-write_start v.bytes (drop n (take v.wptr v.bytes)) (omega (arith, len, h.written)) in
    (
      record {
        written = omega (arith, same_length, h.written);
        inside = omega (arith, same_length, h.inside);
        block = h.block;
        small = h.small;
      },
      let kept = drop n (take v.wptr v.bytes) in
          rw (← len) (take-append_length kept (drop (0 + length kept) v.bytes)),
    )

-- A fresh vector is well-formed and empty.
pub bv_create-IsBvec :
    (heap : Allocator) (size : ℕ)
    → heap.malloc size ≡ true
    → size < 2 ^ 62
    → Returns (λ v. IsBvec v × (contents v ≡ []) × (v.size ≡ size)) (bv_create heap size)
unfolding bv_create contents
bv_create-IsBvec heap size m small = rw m (
  record { wptr = 0; size = size; bytes = []; allocated = size },
  refl,
  (record { written = omega arith; inside = omega arith; block = refl; small = small }, refl, refl),
)
