-- ===== src/Bvec/Runs.antt =====
-- The theorems about src/bvec.c at concrete inputs.
use sasd_protocols.Prelude.{◌≡◌, refl, [], ◌∷◌, none, Returns, true, drop, arith}
use sasd_protocols.Buffer.Types.{Allocator, Realloc}
use sasd_protocols.Bvec.{Bvec, contents, bv_append, bv_shift}
use sasd_protocols.Bvec.Shift.{bv_shift-contents}
use sasd_protocols.Bvec.Laws.{IsBvec, Reallocs, Appended, bv_append-Appended, bv_append-overflow}

abbrev plenty : Allocator
plenty = record { malloc = λ n. true; realloc = λ n. Realloc.moved }

plenty-Reallocs : Reallocs plenty
plenty-Reallocs n e = ground arith

-- Four bytes of room, three of which are taken.
abbrev nearly_full : Bvec
nearly_full = record { wptr = 3; size = 4; bytes = 1 ∷ 2 ∷ 3 ∷ []; allocated = 4 }

nearly_full-IsBvec : IsBvec nearly_full
nearly_full-IsBvec = record {
  written = omega arith;
  inside = omega arith;
  block = refl;
  small = omega arith;
}

bv_append-Appended_example :
    Returns (Appended nearly_full (4 ∷ 5 ∷ 6 ∷ [])) (bv_append plenty nearly_full (4 ∷ 5 ∷ 6 ∷ []))
bv_append-Appended_example =
    bv_append-Appended plenty nearly_full (4 ∷ 5 ∷ 6 ∷ []) nearly_full-IsBvec plenty-Reallocs
      (omega arith) (omega arith)

bv_append-overflow_example : bv_append plenty nearly_full (4 ∷ 5 ∷ 6 ∷ 7 ∷ []) ≡ none
bv_append-overflow_example =
    bv_append-overflow plenty nearly_full (4 ∷ 5 ∷ 6 ∷ 7 ∷ []) nearly_full-IsBvec plenty-Reallocs
      (omega arith)

bv_shift-contents_example :
    IsBvec (bv_shift 2 nearly_full)
    × (contents (bv_shift 2 nearly_full) ≡ drop 2 (contents nearly_full))
bv_shift-contents_example = bv_shift-contents 2 nearly_full nearly_full-IsBvec (omega arith)
