-- ===== src/Buffer/Push/Fits.antt =====
-- Writes that fit the buffer need no reallocation, and append their bytes.
use sasd_protocols.Prelude.{
  ℕ, ◌+◌, ◌≤◌, ◌<◌, ◌≡◌, refl, List, [], ◌++◌, length, length-append, take_all, drop_past,
  append-nil, arith, ℤ, pos, true, append_assoc,
}
use sasd_protocols.Prelude.Word.{wrap, mod16, mod64}
use sasd_protocols.Buffer.Types.{Buffer, live, Allocator, done}
use sasd_protocols.Buffer.Push.{
  int16_bytes, int32_bytes, char_bytes, capacity_chkw, copy_in, push_live, push_any, push_char,
  push_int16, push_int32, push_string, push_rest, buffer_create, buffer_from_data, pushed,
}

-- A buffer of `size` bytes into which `xs` were pushed, and from which nothing was read.
abbrev pub holding : ℕ → List ℕ → Buffer
holding size xs = record { rptr = 0; wptr = length xs; size = size; bytes = xs; allocated = size }

module _ (heap : Allocator) where
  pub push_any-holding :
      (size : ℕ) (xs ys : List ℕ)
      → length xs + length ys ≤ size
      → size < mod64
      → push_any heap (live (holding size xs)) ys ≡ (done, live (holding size (xs ++ ys)))
  unfolding push_any push_live capacity_chkw copy_in
  push_any-holding size xs ys h k = ground (
    arith,
    length-append xs ys,
    take_all xs,
    drop_past (length xs + length ys) xs (omega arith),
    append-nil ys,
  )

  pub push_char-holding :
      (size : ℕ) (xs : List ℕ) (c : ℤ)
      → length xs + 1 ≤ size
      → size < mod64
      → push_char heap (live (holding size xs)) c ≡ (done, live (holding size (xs ++ char_bytes c)))
  unfolding push_char
  push_char-holding size xs c h k = push_any-holding size xs (char_bytes c) (omega arith) k

  pub push_int16-holding :
      (size : ℕ) (xs : List ℕ) (z : ℤ)
      → length xs + 2 ≤ size
      → size < mod64
      → push_int16 heap (live (holding size xs)) z
        ≡ (done, live (holding size (xs ++ int16_bytes z)))
  unfolding push_int16
  push_int16-holding size xs z h k = push_any-holding size xs (int16_bytes z) (omega arith) k

  pub push_int32-holding :
      (size : ℕ) (xs : List ℕ) (z : ℤ)
      → length xs + 4 ≤ size
      → size < mod64
      → push_int32 heap (live (holding size xs)) z
        ≡ (done, live (holding size (xs ++ int32_bytes z)))
  unfolding push_int32
  push_int32-holding size xs z h k = push_any-holding size xs (int32_bytes z) (omega arith) k

  pub push_string-holding :
      (size : ℕ) (xs ys : List ℕ)
      → length xs + 2 + length ys ≤ size
      → size < mod64
      → push_string heap (live (holding size xs)) ys
        ≡ (done, live (holding size (xs ++ (int16_bytes (wrap mod16 (pos (length ys))) ++ ys))))
  unfolding push_string
  push_string-holding size xs ys h k =
      let n = int16_bytes (wrap mod16 (pos (length ys))) in
      rw
        (
          push_int16-holding size xs (wrap mod16 (pos (length ys))) (omega arith) k,
          push_rest,
          push_any-holding size (xs ++ n) ys (omega (arith, length-append xs n)) k,
          append_assoc xs n ys,
        )
        refl

  pub buffer_create-holding :
      (size : ℕ) → heap.malloc size ≡ true → buffer_create heap size ≡ live (holding size [])
  unfolding buffer_create
  buffer_create-holding size h = rw h

  pub buffer_from_data-holding :
      (xs : List ℕ)
      → heap.malloc (length xs) ≡ true
      → buffer_from_data heap xs ≡ live (holding (length xs) xs)
  unfolding buffer_from_data
  buffer_from_data-holding xs h = rw (buffer_create-holding (length xs) h, buffer_from_data) refl

pub pushed-holding : (size : ℕ) (xs : List ℕ) → pushed (live (holding size xs)) ≡ xs
unfolding pushed
pushed-holding size xs = take_all xs
