-- ===== src/Framing/Frames.antt =====
-- Streams of whole packets.
use sasd_protocols.Prelude.{
  ℕ, ◌+◌, ◌^◌, ◌≤◌, ◌<◌, ◌≡◌, refl, ap, ◌∙◌, append_assoc, List, [], ◌∷◌, ◌++◌, length, some, ℤ,
  pos, arith,
}
use sasd_protocols.Prelude.Word.{mod16, mod64, InWidth, bits}
use sasd_protocols.Buffer.Types.{Allocator}
use sasd_protocols.Buffer.Push.{int16_bytes}
use sasd_protocols.Buffer.Push.Fits.{buffer_from_data-holding}
use sasd_protocols.Buffer.Pop.Reads.{pop_int16-Reads}
use sasd_protocols.Packets.Serialize.Whole.{Grants}
use sasd_protocols.Framing.{read_size, read_from, result_of}

-- Bytes that begin with their own number, which fits an `int16_t`; at least one byte follows.
pub record IsFrame (xs : List ℕ) : Type 0 where
  pub body : List ℕ
  pub sized : xs ≡ int16_bytes (pos (length xs)) ++ body
  pub long : 3 ≤ length xs
  pub short : length xs < 2 ^ 15

-- The frames one after the other.
abbrev pub joined : List (List ℕ) → List ℕ
joined [] = []
joined (xs ∷ xss) = xs ++ joined xss

pub read_size-int16 :
    (heap : Allocator) (z : ℤ) (rest : List ℕ)
    → Grants heap
    → InWidth mod16 z
    → 2 + length rest < mod64
    → read_size heap (int16_bytes z ++ rest) ≡ some z
unfolding read_size read_from result_of
read_size-int16 heap z rest m w small =
    rw
      (
        buffer_from_data-holding heap (int16_bytes z ++ rest) (m (length (int16_bytes z ++ rest))),
        (pop_int16-Reads z w).read [] rest (omega arith),
      )
      refl

-- The size of the first frame is read from the bytes of all.
pub read_size-frame :
    (heap : Allocator) (xs rest : List ℕ)
    → Grants heap
    → IsFrame xs
    → length (xs ++ rest) < mod64
    → read_size heap (xs ++ rest) ≡ some (pos (length xs))
read_size-frame heap xs rest grants f small =
    let whole : xs ++ rest ≡ int16_bytes (pos (length xs)) ++ (f.body ++ rest) =
      ap (λ ys. ys ++ rest) f.sized ∙ append_assoc (int16_bytes (pos (length xs))) f.body rest in
    let len = ap length whole in
    rw whole (
      read_size-int16 heap (pos (length xs)) (f.body ++ rest) grants
        (omega (arith, f.short), omega arith) (omega (arith, len)))

pub bits_size : (n : ℕ) → n < mod64 → bits mod64 (pos n) ≡ n
unfolding bits
bits_size n h = omega arith
