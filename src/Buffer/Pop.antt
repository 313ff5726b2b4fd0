-- ===== src/Buffer/Pop.antt =====
-- The functions of src/buffer.c that read a buffer: each takes the buffer and gives a value with
-- the buffer that is left.
pub mod Reads
use sasd_protocols.Prelude.{
  ℕ, zero, suc, ◌+◌, ◌-◌, ◌^◌, List, [], ◌∷◌, length, take, drop, Bool, true, false, leb,
  if◌then◌else◌, ℤ, pos, negsuc, ◌-ℤ◌, ltb_ℤ,
}
use sasd_protocols.Prelude.Word.{bits, signed, mod8, mod16, mod32, mod64, word2, word4}
use sasd_protocols.Buffer.Types.{Buffer, add_size, sub_size}

-- `got` is a return of 0 or more with what was read, `failed` is a return of -1, and
-- `undefined` is a read of bytes that nothing was written to.
pub data Result {ℓ} (A : Type ℓ) : Type ℓ where
  got : A → Buffer → Result A
  failed : Result A
  undefined : Result A

abbrev pub Reader : Type 0 → Type 0
Reader A = Buffer → Result A

infixl 5 ◌>>=◌
unfoldable pub ◌>>=◌ : {A B : Type 0} → Reader A → (A → Reader B) → Reader B
◌>>=◌ m f b = elim (m b) [ got a b' ↦ f a b' | failed ↦ failed | undefined ↦ undefined ]

abbrev pub pure : {A : Type 0} → A → Reader A
pure a b = got a b

-- `__buffer_capacity_chkr`, which compares with the capacity, not with what was written.
unfoldable pub capacity_chkr : Buffer → ℕ → Bool
capacity_chkr b n = leb n (sub_size b.size b.rptr)

-- `__buffer_pop_any` into a block that is large enough
unfoldable pub pop_any : ℕ → Reader (List ℕ)
pop_any n b =
    if capacity_chkr b n
    then (if leb (b.rptr + n) (length b.bytes)
        then got (take n (drop b.rptr b.bytes)) (record b { rptr = add_size b.rptr n })
        else undefined)
    else failed

-- What `n` bytes stand for; a list of another length is not met.
pub char_of : List ℕ → ℤ
char_of (a ∷ []) = signed mod8 a
char_of _ = pos 0

unfoldable pub int16_of : List ℕ → ℤ
int16_of (a ∷ b ∷ []) = signed mod16 (word2 a b)
int16_of _ = pos 0

pub int32_of : List ℕ → ℤ
int32_of (a ∷ b ∷ c ∷ d ∷ []) = signed mod32 (word4 a b c d)
int32_of _ = pos 0

pub pop_char : Reader ℤ
pop_char = do bs ← pop_any 1; pure (char_of bs)

unfoldable pub pop_int16 : Reader ℤ
pop_int16 = do bs ← pop_any 2; pure (int16_of bs)

pub pop_int32 : Reader ℤ
pop_int32 = do bs ← pop_any 4; pure (int32_of bs)

-- The bytes of the float, in the order of the machine.
pub pop_float32 : Reader (List ℕ)
pop_float32 = pop_any 4

pub pop_float64 : Reader (List ℕ)
pop_float64 = pop_any 8

-- How many bytes `buffer_pop_string` takes: `size` is the caller's space, or negative for a
-- string that is to be allocated. `MIN` keeps one byte for the terminator.
pub string_size : ℤ → ℤ → ℤ
string_size size length =
    if ltb_ℤ size (pos 0)
    then length
    else (if ltb_ℤ (size -ℤ pos 1) length then size -ℤ pos 1 else length)

-- The bytes in front of the terminator that is written behind them. A negative number of bytes
-- becomes a huge `size_t`.
pub pop_string : ℤ → Reader (List ℕ)
pop_string size = do length ← pop_int16; pop_any (bits mod64 (string_size size length))
