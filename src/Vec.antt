-- ===== src/Vec.antt =====
-- src/vec.h and src/vec.c: a vector of elements of one size, which grows when an element is set
-- behind its end. `none` stands for undefined behaviour, or for a loop that does not end.
pub mod Laws
pub mod Slots
mod Runs
use sasd_protocols.Prelude.{
  ℕ, zero, suc, ◌+◌, ◌-◌, ◌*◌, ◌/◌, ◌%◌, List, [], ◌∷◌, ◌++◌, length, take, drop, replicate, Option,
  none, some, ◌>>=◌, leb, if◌then◌else◌, Bool, true, false,
}
use sasd_protocols.Prelude.Word.{mod64}
use sasd_protocols.Buffer.Types.{
  Allocator, Realloc, null, same, moved, add_size, sub_size, write_bytes,
}

-- `data` holds `size` bytes; a byte that nothing was written to is `none`.
pub record Vec : Type 0 where
  pub size : ℕ
  pub elem_size : ℕ
  pub zero_fill : Bool
  pub bytes : List (Option ℕ)

-- The element size is not 0: the macro divides by it.
pub vec_size : Vec → ℕ
vec_size v = v.size / v.elem_size

-- The bytes that `malloc` and `realloc` add, which `memset` clears if `zero_fill` is set.
pub fresh : Bool → ℕ → List (Option ℕ)
fresh true n = replicate n (some 0)
fresh false n = replicate n none

-- `while (i >= count) count += count / 2;`, for so many rounds
pub grow_count : ℕ → ℕ → ℕ → Option ℕ
grow_count zero i count = none
grow_count (suc fuel) i count =
    let rest = grow_count fuel i (add_size count (count / 2)) in
    if leb count i then rest else some count

-- What `realloc` to `size` bytes gives.
pub regrown : Vec → ℕ → Realloc → Option Vec
regrown v size null = none
regrown v size same =
    some (record v { size = size; bytes = v.bytes ++ fresh v.zero_fill (size - v.size) })
regrown v size moved =
    some (record v { size = size; bytes = v.bytes ++ fresh v.zero_fill (size - v.size) })

module _ (heap : Allocator) where
  -- `__vec_grow`
  pub vec_grow : ℕ → Vec → ℕ → Option Vec
  vec_grow fuel v i = grow_count fuel i (vec_size v) >>= λ count.
      let size = count * v.elem_size % mod64 in regrown v size (heap.realloc size)

  pub vec_create : ℕ → ℕ → Bool → Option Vec
  vec_create n elemsize zero_fill =
      let size = n * elemsize % mod64 in
      if heap.malloc size
      then some (record {
        size = size;
        elem_size = elemsize;
        zero_fill = zero_fill;
        bytes = fresh zero_fill size;
      })
      else none

-- `memcpy` of the element to its place
pub put : ℕ → List (Option ℕ) → Vec → Option Vec
put i elem v =
    if leb ((i + 1) * v.elem_size) (length v.bytes)
    then some (record v {
      bytes =
          take (i * v.elem_size) v.bytes ++ (elem ++ drop (i * v.elem_size + length elem) v.bytes);
    })
    else none

-- The element has `elem_size` bytes.
pub vec_set : Allocator → ℕ → Vec → ℕ → List (Option ℕ) → Option Vec
vec_set heap fuel v i elem =
    let grown = vec_grow heap fuel v i >>= put i elem in
    if leb (vec_size v) i then grown else put i elem v

-- `none` is -1; the bytes are those that are copied to `dst`.
pub vec_get : Vec → ℕ → Option (List (Option ℕ))
vec_get v i =
    if leb (vec_size v) i then none else some (take v.elem_size (drop (i * v.elem_size) v.bytes))
