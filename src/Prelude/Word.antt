-- ===== src/Prelude/Word.antt =====
-- Machine integers. An `int16_t`, `int32_t`, `int64_t` or (signed) `char` is the integer that it
-- stands for; `bits` is its two's complement pattern and `signed` reads a pattern back.
-- Conversion to a width, and an operation that overflows it, wrap by `wrap`.
use sasd_protocols.Prelude.{
  ℕ, ◌+◌, ◌-◌, ◌*◌, ◌/◌, ◌%◌, ◌^◌, ◌≤◌, ◌<◌, ◌≡◌, refl, ltb, if◌then◌else◌, ℤ, pos, negsuc,
  pos_part, neg_part, arith,
}

unfoldable pub bits : ℕ → ℤ → ℕ
bits m (pos n) = n % m
bits m (negsuc n) = m - 1 - n % m

unfoldable pub signed : ℕ → ℕ → ℤ
signed m w = if ltb w (m / 2) then pos w else negsuc (m - 1 - w)

abbrev pub wrap : ℕ → ℤ → ℤ
wrap m z = signed m (bits m z)

-- The integers of a width: `m` is 2 to the number of bits.
abbrev pub InWidth : ℕ → ℤ → Type 0
InWidth m z = (pos_part z < m / 2) × (neg_part z ≤ m / 2)

abbrev pub mod8 : ℕ
mod8 = 2 ^ 8

abbrev pub mod16 : ℕ
mod16 = 2 ^ 16

abbrev pub mod32 : ℕ
mod32 = 2 ^ 32

abbrev pub mod64 : ℕ
mod64 = 2 ^ 64

pub signed-bits_8 : (z : ℤ) → InWidth mod8 z → signed mod8 (bits mod8 z) ≡ z
unfolding signed bits
signed-bits_8 (pos n) h = ground arith
signed-bits_8 (negsuc n) h = ground arith

pub signed-bits_16 : (z : ℤ) → InWidth mod16 z → signed mod16 (bits mod16 z) ≡ z
unfolding signed bits
signed-bits_16 (pos n) h = ground arith
signed-bits_16 (negsuc n) h = ground arith

pub signed-bits_32 : (z : ℤ) → InWidth mod32 z → signed mod32 (bits mod32 z) ≡ z
unfolding signed bits
signed-bits_32 (pos n) h = ground arith
signed-bits_32 (negsuc n) h = ground arith

pub signed-bits_64 : (z : ℤ) → InWidth mod64 z → signed mod64 (bits mod64 z) ≡ z
unfolding signed bits
signed-bits_64 (pos n) h = ground arith
signed-bits_64 (negsuc n) h = ground arith

pub bits-lt_32 : (z : ℤ) → bits mod32 z < mod32
unfolding bits
bits-lt_32 (pos n) = omega arith
bits-lt_32 (negsuc n) = omega arith

pub bits-lt_16 : (z : ℤ) → bits mod16 z < mod16
unfolding bits
bits-lt_16 (pos n) = omega arith
bits-lt_16 (negsuc n) = omega arith

-- The bytes of a pattern in network (big-endian) order, which `htons` and `htonl` produce.
unfoldable pub bytes2 : ℕ → ℕ × ℕ
bytes2 w = (w / 2 ^ 8 % 2 ^ 8, w % 2 ^ 8)

unfoldable pub word2 : ℕ → ℕ → ℕ
word2 a b = a * 2 ^ 8 + b

unfoldable pub bytes4 : ℕ → ℕ × ℕ × ℕ × ℕ
bytes4 w = (w / 2 ^ 24 % 2 ^ 8, w / 2 ^ 16 % 2 ^ 8, w / 2 ^ 8 % 2 ^ 8, w % 2 ^ 8)

unfoldable pub word4 : ℕ → ℕ → ℕ → ℕ → ℕ
word4 a b c d = a * 2 ^ 24 + b * 2 ^ 16 + c * 2 ^ 8 + d

pub word2-bytes2 : (w : ℕ) → w < mod16 → word2 (bytes2 w).0 (bytes2 w).1 ≡ w
unfolding word2 bytes2
word2-bytes2 w h = omega arith

pub word4-bytes4 :
    (w : ℕ) → w < mod32 → word4 (bytes4 w).0 (bytes4 w).1 (bytes4 w).2 (bytes4 w).3 ≡ w
unfolding word4 bytes4
word4-bytes4 w h = omega arith

wrap_test : wrap mod32 (pos (2 ^ 31)) ≡ negsuc (2 ^ 31 - 1)
unfolding signed bits
wrap_test = refl
