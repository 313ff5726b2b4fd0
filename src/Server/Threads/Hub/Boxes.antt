-- ===== src/Server/Threads/Hub/Boxes.antt =====
-- What of one sender stands in what a member of the hub was told.
use sasd_protocols.Prelude.{
  ◌≡◌, ◌≢◌, ◌⊎◌, inl, inr, refl, sym, ap, ◌∙◌, List, [], ◌∷◌, ◌++◌, map, append-nil, false,
  Bool-cases, if◌then◌else◌, ℤ, eqb_ℤ, eqb_ℤ→eq,
}
use mathlib.Core.Path.{subst}
use sasd_protocols.Server.Relay.{eqb_ℤ_refl, different}
use sasd_protocols.Server.Threads.Hub.{
  PacketBytes, Note, arrived, departed, passed, put, tell, from, from_member, introductions,
}

abbrev pub Within : ℤ → List ℤ → Type 0
Within c [] = ⊥
Within c (m ∷ ms) = (c ≡ m) ⊎ Within c ms

-- No element stands twice.
abbrev pub Distinct : List ℤ → Type 0
Distinct [] = Unit
Distinct (m ∷ ms) = (¬ Within m ms) × Distinct ms

pub eqb_ℤ_other : (a b : ℤ) → a ≢ b → eqb_ℤ a b ≡ false
eqb_ℤ_other a b h = elim (Bool-cases (eqb_ℤ a b)) [
  | inl e ↦ absurd (h (eqb_ℤ→eq a b e))
  | inr e ↦ e
]

pub eq_or : (a b : ℤ) → (a ≡ b) ⊎ (a ≢ b)
eq_or a b = elim (Bool-cases (eqb_ℤ a b)) [
  | inl e ↦ inl (eqb_ℤ→eq a b e)
  | inr e ↦ inr (different a b e)
]

pub put_same : {A : Type 0} (k : ℤ) (a : A) (f : ℤ → A) → put k a f k ≡ a
unfolding put
put_same k a f = rw (eqb_ℤ_refl k) refl

pub put_other : {A : Type 0} (k i : ℤ) (a : A) (f : ℤ → A) → i ≢ k → put k a f i ≡ f i
unfolding put
put_other k i a f h = rw (eqb_ℤ_other i k h) refl

pub from-append : (c : ℤ) (b d : List (ℤ × Note)) → from c (b ++ d) ≡ from c b ++ from c d
unfolding from
from-append c [] d = refl
from-append c ((s, arrived) ∷ b) d = from-append c b d
from-append c ((s, departed) ∷ b) d = from-append c b d
from-append c ((s, passed xs) ∷ b) d = elim (Bool-cases (eqb_ℤ s c)) [
  | inl e ↦ rw (e, from-append c b d) refl
  | inr e ↦ rw (e, from-append c b d) refl
]

-- Of what is told, `from` sees the packets of one sender.
pub seen : ℤ → ℤ → Note → List PacketBytes
seen c s note = from c ((s, note) ∷ [])

pub seen_same : (c : ℤ) (xs : PacketBytes) → seen c c (passed xs) ≡ xs ∷ []
unfolding seen from
seen_same c xs = rw (eqb_ℤ_refl c) refl

pub seen_other : (c s : ℤ) (note : Note) → s ≢ c → seen c s note ≡ []
unfolding seen from
seen_other c s arrived h = refl
seen_other c s departed h = refl
seen_other c s (passed xs) h = rw (eqb_ℤ_other s c h) refl

pub seen_quiet_arrived : (k c : ℤ) → seen k c arrived ≡ []
unfolding seen from
seen_quiet_arrived k c = refl

pub seen_quiet_departed : (k c : ℤ) → seen k c departed ≡ []
unfolding seen from
seen_quiet_departed k c = refl

pub tell_own : (s : ℤ) (note : Note) (box : ℤ → List (ℤ × Note)) → tell s note box s ≡ box s
unfolding tell
tell_own s note box = rw (eqb_ℤ_refl s) refl

-- One is told by all but oneself.
pub from-tell :
    (c s d : ℤ) (note : Note) (box : ℤ → List (ℤ × Note))
    → d ≢ s
    → from c (tell s note box d) ≡ from c (box d) ++ seen c s note
unfolding tell seen
from-tell c s d note box h = rw (eqb_ℤ_other d s h) (from-append c (box d) ((s, note) ∷ []))

pub from-tell_quiet :
    (c s d : ℤ) (note : Note) (box : ℤ → List (ℤ × Note))
    → seen c s note ≡ []
    → from c (tell s note box d) ≡ from c (box d)
from-tell_quiet c s d note box h = elim (eq_or d s) [
  | inl e ↦
      ap (λ k. from c (tell s note box k)) e
      ∙ ap (from c) (tell_own s note box)
      ∙ ap (λ k. from c (box k)) (sym e)
  | inr n ↦
      from-tell c s d note box n ∙ ap (λ b. from c (box d) ++ b) h ∙ append-nil (from c (box d))
]

from-log :
    (c m : ℤ) (log : List PacketBytes)
    → from c (map (λ xs. (m, passed xs)) log) ≡ (if eqb_ℤ m c then log else [])
unfolding from
from-log c m [] = elim (Bool-cases (eqb_ℤ m c)) [ inl e ↦ rw e refl | inr e ↦ rw e refl ]
from-log c m (xs ∷ log) = elim (Bool-cases (eqb_ℤ m c)) [
  | inl e ↦ rw (e, from-log c m log, e) refl
  | inr e ↦ rw (e, from-log c m log, e) refl
]

from-member :
    (c m : ℤ) (log : List PacketBytes)
    → from c (from_member m log) ≡ (if eqb_ℤ m c then log else [])
unfolding from
from-member c m log = from-log c m log

module _ (log : ℤ → List PacketBytes) where
  pub from-introductions_none :
      (c : ℤ) (ms : List ℤ) → (¬ Within c ms) → from c (introductions ms log) ≡ []
  unfolding introductions from
  from-introductions_none c [] h = refl
  from-introductions_none c (m ∷ ms) h =
      from-append c (from_member m (log m)) (introductions ms log)
      ∙ ap (λ b. b ++ from c (introductions ms log))
          (from-member c m (log m)
            ∙ ap (λ t. if t then log m else []) (eqb_ℤ_other m c (λ e. h (inl (sym e)))))
      ∙ from-introductions_none c ms (λ w. h (inr w))

  -- A new member is told all that a member has sent.
  pub from-introductions :
      (c : ℤ) (ms : List ℤ) → Distinct ms → Within c ms → from c (introductions ms log) ≡ log c
  unfolding introductions
  from-introductions c [] d w = absurd w
  from-introductions c (m ∷ ms) (fresh, d) (inl e) =
      from-append c (from_member m (log m)) (introductions ms log)
      ∙ ap (λ b. from c (from_member m (log m)) ++ b)
          (from-introductions_none c ms (λ w. fresh (subst (λ k. Within k ms) e w)))
      ∙ append-nil (from c (from_member m (log m)))
      ∙ from-member c m (log m)
      ∙ ap (λ t. if t then log m else []) (ap (eqb_ℤ m) e ∙ eqb_ℤ_refl m)
      ∙ ap log (sym e)
  from-introductions c (m ∷ ms) (fresh, d) (inr w) =
      from-append c (from_member m (log m)) (introductions ms log)
      ∙ ap (λ b. b ++ from c (introductions ms log))
          (from-member c m (log m)
            ∙ ap (λ t. if t then log m else [])
                (eqb_ℤ_other m c (λ e. fresh (subst (λ k. Within k ms) (sym e) w))))
      ∙ from-introductions c ms d w

pub tell_other :
    (s d : ℤ) (note : Note) (box : ℤ → List (ℤ × Note))
    → d ≢ s
    → tell s note box d ≡ box d ++ ((s, note) ∷ [])
unfolding tell
tell_other s d note box h = rw (eqb_ℤ_other d s h) refl
