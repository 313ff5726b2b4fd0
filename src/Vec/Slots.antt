-- ===== src/Vec/Slots.antt =====
-- A vector of src/vec.c as its callers see it: by elements in place of their bytes.
pub mod Laws
use sasd_protocols.Prelude.{
  ℕ, suc, ◌+◌, ◌-◌, ◌*◌, List, ◌++◌, length, replicate, set, get_elem?, Option, none, some, ◌>>=◌,
  leb, ltb, if◌then◌else◌, Bool,
}
use sasd_protocols.Prelude.Word.{mod64}
use sasd_protocols.Buffer.Types.{Allocator, Realloc, null, same, moved}
use sasd_protocols.Vec.{grow_count}

-- `blank` is what an element is that nothing was set at: zeros, or uninitialised memory.
pub record Slots (A : Type 0) : Type 0 where
  pub elem_size : ℕ
  pub blank : A
  pub elems : List A

module _ {A : Type 0} where
  -- `none` is -1.
  unfoldable pub slots_get : Slots A → ℕ → Option A
  slots_get s i = get_elem? s.elems i

  -- What `realloc` gives. The caller's pointer is updated.
  pub resized_to : Slots A → ℕ → Realloc → Option (Slots A)
  resized_to s count null = none
  resized_to s count same =
      some (record s { elems = s.elems ++ replicate (count - length s.elems) s.blank })
  resized_to s count moved =
      some (record s { elems = s.elems ++ replicate (count - length s.elems) s.blank })

  -- `__vec_grow`. A byte count that does not fit a `size_t` gives a block that is too small, and
  -- counts as undefined. The fuel is one round for each element up to the index, and one more.
  pub slots_grow : Allocator → Slots A → ℕ → Option (Slots A)
  slots_grow heap s i = grow_count (i + 2) i (length s.elems) >>= λ count.
      if ltb (count * s.elem_size) mod64
      then resized_to s count (heap.realloc (count * s.elem_size))
      else none

  -- The assignment itself, inside the vector.
  abbrev pub assign : Slots A → ℕ → A → Slots A
  assign s i a = record s { elems = set s.elems i a }

  pub slots_set : Allocator → Slots A → ℕ → A → Option (Slots A)
  slots_set heap s i a =
      let grown = slots_grow heap s i >>= λ t. some (assign t i a) in
      if leb (length s.elems) i then grown else some (assign s i a)

  pub slots_create : Allocator → ℕ → ℕ → A → Option (Slots A)
  slots_create heap n elem_size blank =
      if heap.malloc (n * elem_size)
      then some (record { elem_size = elem_size; blank = blank; elems = replicate n blank })
      else none
