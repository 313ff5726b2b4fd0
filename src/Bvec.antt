-- ===== src/Bvec.antt =====
-- src/bvec.h and src/bvec.c: a byte vector that grows at its end. `none` stands for undefined
-- behaviour: a write behind the block, or a use of a null pointer that `realloc` returned.
pub mod Laws
pub mod Shift
pub mod Success
mod Runs
use sasd_protocols.Prelude.{
  ℕ, ◌+◌, ◌-◌, ◌/◌, List, [], ◌∷◌, ◌++◌, length, take, drop, Option, none, some, ◌>>=◌, leb, ltb,
  if◌then◌else◌, Bool, true, false,
}
use sasd_protocols.Buffer.Types.{
  Allocator, Realloc, null, same, moved, add_size, sub_size, write_bytes,
}

-- `bytes` holds what was written from offset 0 on, also behind `wptr` after a reset; `allocated`
-- is the length of the block.
pub record Bvec : Type 0 where
  pub wptr : ℕ
  pub size : ℕ
  pub bytes : List ℕ
  pub allocated : ℕ

-- `bv_data` up to `bv_size`
unfoldable pub contents : Bvec → List ℕ
contents v = take v.wptr v.bytes

-- The result of `realloc` to `n` bytes. The caller's pointer is updated, so it does not matter
-- whether the block moves.
pub resized : Bvec → ℕ → Realloc → Option Bvec
resized v n null = none
resized v n same = some (record v { size = n; allocated = n })
resized v n moved = some (record v { size = n; allocated = n })

module _ (heap : Allocator) where
  unfoldable pub bv_create : ℕ → Option Bvec
  bv_create size =
      if heap.malloc size
      then some (record { wptr = 0; size = size; bytes = []; allocated = size })
      else none

  pub bv_grow : Bvec → Option Bvec
  bv_grow v = let size = add_size v.size (v.size / 2) in resized v size (heap.realloc size)

  unfoldable pub bv_write : Bvec → List ℕ → Option Bvec
  bv_write v xs =
      if leb (v.wptr + length xs) v.allocated
      then some
          (record v { bytes = write_bytes v.bytes v.wptr xs; wptr = add_size v.wptr (length xs) })
      else none

  unfoldable pub bv_append : Bvec → List ℕ → Option Bvec
  bv_append v xs =
      let grown = bv_grow v >>= λ w. bv_write w xs in
      if ltb (sub_size v.size v.wptr) (length xs) then grown else bv_write v xs

-- `bv_size(vec) = 0`
unfoldable pub bv_reset : Bvec → Bvec
bv_reset v = record v { wptr = 0 }

-- The first `n` bytes are dropped, the remaining data moved to the beginning (`memmove`).
pub bv_shift : ℕ → Bvec → Bvec
bv_shift n v = record v { bytes = write_bytes v.bytes 0 (drop n (contents v)); wptr = v.wptr - n }
