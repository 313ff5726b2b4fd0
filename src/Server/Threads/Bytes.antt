-- ===== src/Server/Threads/Bytes.antt =====
-- The bytes that src/server.c puts behind those of a buffer, when its calls succeed.
use mathlib.Core.Path.{subst}
use sasd_protocols.Prelude.{
  ℕ, ◌≡◌, refl, sym, ap, ◌∙◌, List, [], ◌++◌, drop, take, append_assoc, Option, none, some, ◌>>=◌,
  ℤ, pos, ◌+ℤ◌, arith,
}
use sasd_protocols.Prelude.Word.{mod16, wrap}
use sasd_protocols.Buffer.Types.{Allocator}
use sasd_protocols.Bvec.{Bvec, contents, bv_append}
use sasd_protocols.Bvec.Laws.{IsBvec}
use sasd_protocols.Bvec.Success.{IsFinite, bv_append-some}
use sasd_protocols.Framing.{read_size}
use sasd_protocols.Server.{prepended, bv_append_with_sender_id}
use sasd_protocols.Server.Relay.{Gained}

-- What `bv_append_with_sender_id` appends, given the size that it read.
pub sized_frame : Allocator → ℤ → List ℕ → Option ℤ → List ℕ
sized_frame heap id xs none = []
sized_frame heap id xs (some size) = prepended heap (wrap mod16 (size +ℤ pos 4)) id ++ drop 2 xs

-- A packet with its sender put in.
pub framed : Allocator → ℤ → List ℕ → List ℕ
framed heap id xs = sized_frame heap id xs (read_size heap (take 2 xs))

-- The value that a chain of two results gives.
pub bound :
    {A B : Type 0} (m : Option A) (f : A → Option B) (b : B)
    → (m >>= f) ≡ some b
    → (a : A) × (m ≡ some a) × (f a ≡ some b)
bound none f b e = absurd (ground arith)
bound (some a) f b e = (a, refl, e)

module _ (heap : Allocator) (finite : IsFinite heap) where
  pub append-Gained :
      (v w : Bvec) (xs : List ℕ) → IsBvec v → bv_append heap v xs ≡ some w → Gained v xs w
  append-Gained v w xs h e =
      let (valid, appended) = bv_append-some heap v w xs h finite e in
      record { valid = valid; appended = appended }

  -- Two appends, one behind the other.
  pub Gained-trans :
      (u v w : Bvec) (xs ys : List ℕ) → Gained u xs v → Gained v ys w → Gained u (xs ++ ys) w
  Gained-trans u v w xs ys g h = record {
    valid = h.valid;
    appended = h.appended ∙ ap (λ b. b ++ ys) g.appended ∙ append_assoc (contents u) xs ys;
  }

  pub with_sender-Gained :
      (v w : Bvec) (id : ℤ) (xs : List ℕ)
      → IsBvec v
      → bv_append_with_sender_id heap v id xs ≡ some w
      → Gained v (framed heap id xs) w
  unfolding bv_append_with_sender_id framed sized_frame
  with_sender-Gained v w id xs h e =
      let (size, q, r) =
        bound (read_size heap (take 2 xs))
          (λ size. bv_append heap v (prepended heap (wrap mod16 (size +ℤ pos 4)) id) >>= λ u.
            bv_append heap u (drop 2 xs))
          w e in
      let (u, a, b) =
        bound (bv_append heap v (prepended heap (wrap mod16 (size +ℤ pos 4)) id))
          (λ u. bv_append heap u (drop 2 xs)) w r in
      let g = append-Gained v u (prepended heap (wrap mod16 (size +ℤ pos 4)) id) h a in
      subst (λ ys. Gained v ys w) (sym (ap (sized_frame heap id xs) q))
        (Gained-trans v u w (prepended heap (wrap mod16 (size +ℤ pos 4)) id) (drop 2 xs) g
          (append-Gained u w (drop 2 xs) g.valid b))
