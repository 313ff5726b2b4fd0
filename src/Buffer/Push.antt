-- ===== src/Buffer/Push.antt =====
-- The functions of src/buffer.c that create a buffer and write to it. A function that takes a
-- `buffer_t` returns what that pointer is to the caller afterwards.
pub mod Fits
use sasd_protocols.Prelude.{
  ℕ, ◌+◌, ◌*◌, ◌/◌, ◌^◌, List, [], ◌∷◌, length, take, Bool, true, false, leb, if◌then◌else◌, ℤ, pos,
}
use sasd_protocols.Prelude.Word.{bits, wrap, mod8, mod16, mod32, bytes2, bytes4}
use sasd_protocols.Buffer.Types.{
  Buffer, Handle, live, freed, undefined, Realloc, null, same, moved, Allocator, add_size, sub_size,
  write_bytes, Code, done, failed, buffer_default_size,
}

-- `htons(i16)` and `htonl(i32)` in memory.
abbrev pub int16_bytes : ℤ → List ℕ
int16_bytes z = let (a, b) = bytes2 (bits mod16 z) in a ∷ b ∷ []

abbrev pub int32_bytes : ℤ → List ℕ
int32_bytes z = let (a, b, c, d) = bytes4 (bits mod32 z) in a ∷ b ∷ c ∷ d ∷ []

abbrev pub char_bytes : ℤ → List ℕ
char_bytes c = bits mod8 c ∷ []

-- `__buffer_capacity_chkw`
unfoldable pub capacity_chkw : Buffer → ℕ → Bool
capacity_chkw b n = leb n (sub_size b.size b.wptr)

-- `memcpy(buffer->data + buffer->wptr, any, size); buffer->wptr += size;`, which must stay in
-- the block.
unfoldable pub copy_in : Buffer → List ℕ → Handle
copy_in b xs =
    if leb (b.wptr + length xs) b.allocated
    then live
        (record b { bytes = write_bytes b.bytes b.wptr xs; wptr = add_size b.wptr (length xs) })
    else undefined

-- The functions hold their own copy of the caller's pointer, so of a block that `realloc` moves
-- the caller keeps the old address.
pub after_move : Handle → Handle
after_move (live b) = freed
after_move freed = freed
after_move undefined = undefined

module _ (heap : Allocator) where
  -- `__buffer_realloc_if`, where the capacity does not suffice, and what its caller does then.
  -- The new size is stored before `realloc` is called.
  pub realloc_then_copy : Buffer → List ℕ → Code × Handle
  realloc_then_copy b xs =
      let size = add_size b.size (b.size / 2) in
      let grown = record b { size = size; allocated = size } in
      elim (heap.realloc size) [
        | null ↦ (failed, live (record b { size = size }))
        | same ↦ (done, copy_in grown xs)
        | moved ↦ (done, after_move (copy_in grown xs))
      ]

  unfoldable pub push_live : Buffer → List ℕ → Code × Handle
  push_live b xs =
      if capacity_chkw b (length xs) then (done, copy_in b xs) else realloc_then_copy b xs

  -- `__buffer_push_any`
  unfoldable pub push_any : Handle → List ℕ → Code × Handle
  push_any (live b) xs = push_live b xs
  push_any freed xs = (failed, undefined)
  push_any undefined xs = (failed, undefined)

  unfoldable pub buffer_create : ℕ → Handle
  buffer_create size =
      if heap.malloc size
      then live (record { rptr = 0; wptr = 0; size = size; bytes = []; allocated = size })
      else undefined

  pub buffer_create_default : Handle
  buffer_create_default = buffer_create buffer_default_size

  unfoldable pub buffer_from_data : List ℕ → Handle
  buffer_from_data xs = elim (buffer_create (length xs)) [
    | live b ↦ live (record b { bytes = xs; wptr = length xs })
    | freed ↦ freed
    | undefined ↦ undefined
  ]

  unfoldable pub push_char : Handle → ℤ → Code × Handle
  push_char h c = push_any h (char_bytes c)

  unfoldable pub push_int16 : Handle → ℤ → Code × Handle
  push_int16 h z = push_any h (int16_bytes z)

  unfoldable pub push_int32 : Handle → ℤ → Code × Handle
  push_int32 h z = push_any h (int32_bytes z)

  -- A float goes as the bytes of its object, in the order of the machine.
  pub push_float32 : Handle → ℕ × ℕ × ℕ × ℕ → Code × Handle
  push_float32 h (a, b, c, d) = push_any h (a ∷ b ∷ c ∷ d ∷ [])

  pub push_float64 : Handle → (ℕ × ℕ × ℕ × ℕ) × (ℕ × ℕ × ℕ × ℕ) → Code × Handle
  push_float64 h ((a, b, c, d), (e, f, g, k)) = push_any h (a ∷ b ∷ c ∷ d ∷ e ∷ f ∷ g ∷ k ∷ [])

  push_rest : Code × Handle → List ℕ → Code × Handle
  push_rest (done, h) xs = push_any h xs
  push_rest (failed, h) xs = (failed, h)

  -- A C string is the list of its bytes before the terminator.
  pub push_string : Handle → List ℕ → Code × Handle
  unfolding push_rest
  push_string h xs = push_rest (push_int16 h (wrap mod16 (pos (length xs)))) xs

-- `buffer_data` with `buffer_size`: the bytes that were pushed.
unfoldable pub pushed : Handle → List ℕ
pushed (live b) = take b.wptr b.bytes
pushed freed = []
pushed undefined = []
