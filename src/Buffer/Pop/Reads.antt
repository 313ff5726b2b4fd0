-- ===== src/Buffer/Pop/Reads.antt =====
-- What a reader takes from a buffer that is full, as those of `buffer_from_data` are: the bytes
-- before the read position stand in `pre`, those behind it in `post`.
use sasd_protocols.Prelude.{
  ℕ, ◌+◌, ◌^◌, ◌<◌, ◌≡◌, ap, ◌∙◌, List, [], ◌++◌, length, length-append, take-append_length,
  drop-append_length, append-nil, append_assoc, arith, ℤ, pos, ◌-ℤ◌,
}
use mathlib.Core.Path.{subst}
use sasd_protocols.Prelude.Word.{
  mod8, mod16, mod32, mod64, bits, InWidth, signed-bits_8, signed-bits_16, signed-bits_32,
  word2-bytes2, word4-bytes4, bits-lt_16, bits-lt_32,
}
use sasd_protocols.Buffer.Types.{Buffer}
use sasd_protocols.Buffer.Push.{char_bytes, int16_bytes, int32_bytes}
use sasd_protocols.Buffer.Pop.{
  got, Reader, ◌>>=◌, pure, capacity_chkr, pop_any, char_of, int16_of, int32_of, pop_char,
  pop_int16, pop_int32, pop_string, string_size,
}

-- A full buffer in which `pre` was read.
abbrev pub reading : List ℕ → List ℕ → Buffer
reading pre post = record {
  rptr = length pre;
  wptr = length (pre ++ post);
  size = length (pre ++ post);
  bytes = pre ++ post;
  allocated = length (pre ++ post);
}

-- `m` takes exactly the bytes `xs` and gives `a`, whatever stands before and behind them.
pub record Reads {A : Type 0} (m : Reader A) (xs : List ℕ) (a : A) : Type 0 where
  pub read :
      (pre rest : List ℕ)
      → length pre + (length xs + length rest) < mod64
      → m (reading pre (xs ++ rest)) ≡ got a (reading (pre ++ xs) rest)

pub pop_any-Reads : (xs : List ℕ) → Reads (pop_any (length xs)) xs xs
unfolding pop_any capacity_chkr
pop_any-Reads xs = record {
  read = λ pre rest h. ground (
    arith,
    length-append pre (xs ++ rest),
    length-append xs rest,
    length-append pre xs,
    drop-append_length pre (xs ++ rest),
    take-append_length xs rest,
    append_assoc pre xs rest,
  );
}

pub pure-Reads : {A : Type 0} (a : A) → Reads (pure a) [] a
pure-Reads a = record { read = λ pre rest h. rw append-nil }

>>=-got :
    {A B : Type 0} (m : Reader A) (f : A → Reader B) (b : Buffer) {a : A} {b' : Buffer}
    → m b ≡ got a b'
    → (m >>= f) b ≡ f a b'
unfolding ◌>>=◌
>>=-got m f b e = rw (e, ◌>>=◌)

whole_string :
    (size n : ℕ) → n < size → size < 2 ^ 15 → bits mod64 (string_size (pos size) (pos n)) ≡ n
unfolding bits string_size ◌-ℤ◌
whole_string size n h k = ground arith

pub Reads-bind :
    {A B : Type 0} {m : Reader A} (f : A → Reader B) {xs ys : List ℕ} {a : A} {b : B}
    → Reads m xs a
    → Reads (f a) ys b
    → Reads (m >>= f) (xs ++ ys) b
Reads-bind {m = m} f {xs = xs} {ys = ys} {b = b} p q = record {
  read = λ pre rest h.
      ap (λ l. (m >>= f) (reading pre l)) (append_assoc xs ys rest)
      ∙ >>=-got m f _
          (p.read pre (ys ++ rest) (omega (arith, length-append xs ys, length-append ys rest)))
      ∙ q.read (pre ++ xs) rest (omega (arith, length-append xs ys, length-append pre xs))
      ∙ ap (λ l. got b (reading l rest)) (append_assoc pre xs ys);
}

-- A last step that only puts the value together.
pub Reads-last :
    {A B : Type 0} {m : Reader A} (g : A → B) {xs : List ℕ} {a : A}
    → Reads m xs a
    → Reads (m >>= λ x. pure (g x)) xs (g a)
Reads-last {m = m} g {xs = xs} {a = a} p = record {
  read = λ pre rest h. >>=-got m (λ x. pure (g x)) _ (p.read pre rest h);
}

-- A word that is read as the value `a`.
word-Reads :
    {A : Type 0} (of : List ℕ → A) (xs : List ℕ) (a : A)
    → of xs ≡ a
    → Reads (pop_any (length xs) >>= λ bs. pure (of bs)) xs a
word-Reads of xs a e =
    subst (λ x. Reads (pop_any (length xs) >>= λ bs. pure (of bs)) xs x) e
      (Reads-last of (pop_any-Reads xs))

pub pop_char-Reads : (c : ℤ) → InWidth mod8 c → Reads pop_char (char_bytes c) c
unfolding pop_char char_of
pop_char-Reads c w = word-Reads char_of (char_bytes c) c (signed-bits_8 c w)

pub pop_int16-Reads : (z : ℤ) → InWidth mod16 z → Reads pop_int16 (int16_bytes z) z
unfolding pop_int16 int16_of
pop_int16-Reads z w =
    word-Reads int16_of (int16_bytes z) z
      (rw (word2-bytes2 (bits mod16 z) (bits-lt_16 z)) (signed-bits_16 z w))

pub pop_int32-Reads : (z : ℤ) → InWidth mod32 z → Reads pop_int32 (int32_bytes z) z
unfolding pop_int32 int32_of
pop_int32-Reads z w =
    word-Reads int32_of (int32_bytes z) z
      (rw (word4-bytes4 (bits mod32 z) (bits-lt_32 z)) (signed-bits_32 z w))

-- A string that fits the caller's space, its terminator included, is read whole.
pub pop_string-Reads :
    (size : ℕ) (xs : List ℕ)
    → length xs < size
    → size < 2 ^ 15
    → Reads (pop_string (pos size)) (int16_bytes (pos (length xs)) ++ xs) xs
unfolding pop_string
pop_string-Reads size xs h k =
    Reads-bind _ (pop_int16-Reads (pos (length xs)) (omega arith, omega arith))
      (rw (whole_string size (length xs) h k) (pop_any-Reads xs))
