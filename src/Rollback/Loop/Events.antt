-- ===== src/Rollback/Loop/Events.antt =====
-- Where the loops of src/game_timewarp.c and src/game_fasteventordering.c put the events: those of
-- the keys, those that are received, and those that are taken out of the buffer.
use mathlib.Core.Path.{subst}
use sasd_protocols.Prelude.{
  ℕ, ◌-◌, ◌^◌, ◌≤◌, ◌<◌, ◌≡◌, ◌≢◌, ◌⊎◌, inl, inr, refl, sym, ap, ◌∙◌, List, [], ◌∷◌, ◌++◌,
  append-nil, append_assoc, ℤ, pos, negsuc, ◌≤ℤ◌, eqb_ℤ, ltb_ℤ, if◌then◌else◌, All, Returns, true,
  false, arith, min,
}
use sasd_protocols.Buffer.Types.{Allocator}
use sasd_protocols.Balls.Types.{Event, IsEvent}
use sasd_protocols.Vec.Slots.{Slots}
use sasd_protocols.Rollback.Cells.{Cell, index}
use sasd_protocols.Rollback.Cells.Laws.{GrowsInPlace, events_at, IsCells, add_events-Added}
use sasd_protocols.Rollback.Loop.{Protocol, apply_all}
use sasd_protocols.Rollback.Loop.Sorted.{index-pos}

-- A valid event of a frame of the game.
pub record IsTimed (ev : Event) : Type 0 where
  pub valid : IsEvent ev
  pub after_start : pos 1 ≤ℤ ev.frame

-- The events of a list that are executed at a frame.
abbrev pub at_frame : ℕ → List Event → List Event
at_frame k [] = []
at_frame k (ev ∷ evs) =
    let rest = at_frame k evs in if eqb_ℤ ev.frame (pos k) then ev ∷ rest else rest

-- What `apply_all` does: the events go to their frames, and no frame before `n` gets one.
pub record Applied (s : Slots Cell) (evs : List Event) (m : ℕ) (t : Slots Cell) (n : ℕ)
    : Type 0 where
  pub cells : IsCells IsEvent t
  pub added : (k : ℕ) → events_at t k ≡ events_at s k ++ at_frame k evs
  pub earliest : (k : ℕ) → k < n → at_frame k evs ≡ []
  pub positive : 1 ≤ n
  pub below : n ≤ m

timed_frame : (ev : Event) → IsTimed ev → (n : ℕ) × (ev.frame ≡ pos n) × (1 ≤ n) × (n < 2 ^ 30)
timed_frame ev t = of_frame ev.frame t.after_start t.valid.frame_high
  where
    of_frame :
        (z : ℤ)
        → pos 1 ≤ℤ z
        → z ≤ℤ pos (2 ^ 30 - 1)
        → (n : ℕ) × (z ≡ pos n) × (1 ≤ n) × (n < 2 ^ 30)
    of_frame (pos n) lo hi = (n, refl, omega arith, omega arith)
    of_frame (negsuc n) lo hi = absurd (omega arith)

pub eqb_pos :
    (n k : ℕ)
    → (((n ≡ k) × (eqb_ℤ (pos n) (pos k) ≡ true)) ⊎ ((n ≢ k) × (eqb_ℤ (pos n) (pos k) ≡ false)))
eqb_pos n k = ground arith

ltb_pos : (n m : ℕ) → (if ltb_ℤ (pos n) (pos m) then pos n else pos m) ≡ pos (min n m)
ltb_pos n m = ground arith

module _ (heap : Allocator) (grows : GrowsInPlace heap) where
  pub apply_all-Applied :
      (p : Protocol) (evs : List Event) (s : Slots Cell) (m : ℕ)
      → All IsTimed evs
      → IsCells IsEvent s
      → 1 ≤ m
      → Returns
          (λ r. (n : ℕ) × (r.1 ≡ pos n) × Applied s evs m r.0 n)
          (apply_all heap p evs (s, pos m))
  unfolding apply_all
  apply_all-Applied p [] s m ts c h = (
    (s, pos m),
    refl,
    (
      m,
      refl,
      record {
        cells = c;
        added = λ k. sym (append-nil (events_at s k));
        earliest = λ k lt. refl;
        positive = h;
        below = omega arith;
      },
    ),
  )
  apply_all-Applied p (ev ∷ evs) s m (t, ts) c h =
      let (n, e, lo, hi) = timed_frame ev t in
      let (r, q, (a, _)) =
        add_events-Added heap grows IsEvent s n c (omega arith) (ev ∷ []) (t.valid, tt) in
      let (r', q', (n', e', b)) = apply_all-Applied p evs r.1 (min n m) ts a.cells (omega arith) in
      let at_n : index ev.frame ≡ n = ap index e ∙ index-pos n (omega arith) in
      let lower : (if ltb_ℤ ev.frame (pos m) then ev.frame else pos m) ≡ pos (min n m) =
        ap (λ z. if ltb_ℤ z (pos m) then z else pos m) e ∙ ltb_pos n m in
      rw (at_n, q, lower)
        (
          r',
          q',
          (
            n',
            e',
            record {
              cells = b.cells;
              added = λ k. b.added k ∙ elim (eqb_pos n k) [
                | inl (same, t) ↦
                    let here : events_at r.1 k ≡ events_at s k ++ (ev ∷ []) =
                      subst (λ x. events_at r.1 x ≡ events_at s x ++ (ev ∷ [])) same a.here in
                    rw (ap (λ z. eqb_ℤ z (pos k)) e ∙ t, here)
                      (append_assoc (events_at s k) (ev ∷ []) (at_frame k evs))
                | inr (other, f) ↦
                    rw (ap (λ z. eqb_ℤ z (pos k)) e ∙ f, a.elsewhere k (λ x. other (sym x))) refl
              ];
              earliest = λ k lt. elim (eqb_pos n k) [
                | inl (same, t) ↦ absurd (omega (arith, same, b.below))
                | inr (other, f) ↦ rw (ap (λ z. eqb_ℤ z (pos k)) e ∙ f) (b.earliest k lt)
              ];
              positive = b.positive;
              below = omega (arith, b.below);
            },
          ),
        )
