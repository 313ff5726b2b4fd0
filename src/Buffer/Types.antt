-- ===== src/Buffer/Types.antt =====
-- The struct of src/buffer.c, what a caller's pointer to it can be, and the C library's allocator,
-- which is an argument.
use sasd_protocols.Prelude.{ℕ, ◌+◌, ◌-◌, ◌%◌, List, ◌++◌, length, take, drop, Bool}
use sasd_protocols.Prelude.Word.{mod64}

abbrev pub buffer_default_size : ℕ
buffer_default_size = 512

-- `data` holds the bytes that were written, from offset 0 on; the bytes behind them, up to
-- `allocated`, are uninitialised. `allocated` is the length of the block that `malloc` or
-- `realloc` gave for `data`: `size` is what the struct says of it.
pub record Buffer : Type 0 where
  pub rptr : ℕ
  pub wptr : ℕ
  pub size : ℕ
  pub bytes : List ℕ
  pub allocated : ℕ

-- A caller's `buffer_t`: a live block, a block that was freed behind the caller's back, or a
-- program whose behaviour is no longer defined.
pub data Handle : Type 0 where
  live : Buffer → Handle
  freed : Handle
  undefined : Handle

-- What `realloc` does: it fails, grows the block in place, or moves it and frees the old one.
pub data Realloc : Type 0 where
  null same moved : Realloc

-- Does `malloc` of so many bytes succeed, and what does `realloc` to so many bytes do?
pub record Allocator : Type 0 where
  pub malloc : ℕ → Bool
  pub realloc : ℕ → Realloc

-- `size_t` addition and subtraction.
abbrev pub add_size : ℕ → ℕ → ℕ
add_size a b = (a + b) % mod64

abbrev pub sub_size : ℕ → ℕ → ℕ
sub_size a b = (a + mod64 - b) % mod64

-- `memcpy` of bytes over those at an offset.
abbrev pub write_bytes : List ℕ → ℕ → List ℕ → List ℕ
write_bytes bs offset xs = take offset bs ++ (xs ++ drop (offset + length xs) bs)

-- A function that returns 0, or -1 for an error.
pub data Code : Type 0 where
  done failed : Code
