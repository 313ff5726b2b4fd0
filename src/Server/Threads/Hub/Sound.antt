-- ===== src/Server/Threads/Hub/Sound.antt =====
-- The members of the hub have different numbers, and each is told what the others have sent.
use mathlib.Core.Path.{subst}
use sasd_protocols.Prelude.{
  ◌≡◌, ◌≢◌, inl, inr, refl, sym, ap, ◌∙◌, List, [], ◌∷◌, ◌++◌, none, some, ℤ, pos, arith,
}
use sasd_protocols.Server.Threads.Hub.{
  PacketBytes, Note, arrived, departed, passed, Hub, empty_hub, joined, put, tell, introductions,
  from, IsGiven, HubStep, join, arrive, depart, keep, pass, part, HubReach, here, next,
}
use sasd_protocols.Server.Threads.Hub.Repeats.{Delivered, Repeats-refl}
use sasd_protocols.Server.Threads.Hub.Boxes.{
  Within, Distinct, eq_or, put_same, put_other, seen, seen_same, seen_other, from-tell,
  seen_quiet_arrived, seen_quiet_departed, from-tell_quiet, from-introductions,
  from-introductions_none,
}
use sasd_protocols.Server.Threads.Hub.Delivery.{
  HasGot, IsSound, Delivered-refl, keep-Delivered, pass-Delivered, Delivered-same, grown, not_given,
  Within-append, Distinct-append,
}

empty-IsSound : IsSound empty_hub
unfolding from
empty-IsSound = record {
  distinct = tt;
  known = λ c w. absurd w;
  nothing_yet = λ n d h. refl;
  on_its_way = λ c xs e. absurd (ground arith);
  delivered = λ c d w v n. absurd w;
}

module _ (s : Hub) (h : IsSound s) where
  tell-IsSound :
      (k : ℤ) (note : Note)
      → ((c : ℤ) → seen c k note ≡ [])
      → IsSound (record s { box = tell k note s.box })
  tell-IsSound k note quiet = record {
    distinct = h.distinct;
    known = h.known;
    nothing_yet =
        λ n d l. from-tell_quiet (pos n) k d note s.box (quiet (pos n)) ∙ h.nothing_yet n d l;
    on_its_way = h.on_its_way;
    delivered = λ c d w v n.
        subst (λ r. Delivered (s.log c) (s.pending c) r)
          (sym (from-tell_quiet c k d note s.box (quiet c))) (h.delivered c d w v n);
  }

  part-IsSound :
      (before after : List ℤ) (k : ℤ)
      → s.members ≡ before ++ (k ∷ after)
      → IsSound (record s { members = before ++ after })
  part-IsSound before after k e =
      let was : (c : ℤ) → Within c (before ++ after) → Within c s.members =
        λ c w. subst (λ ms. Within c ms) (sym e) (Within-append c before after k w) in
      record {
        distinct = Distinct-append before after k (subst (λ ms. Distinct ms) e h.distinct);
        known = λ c w. h.known c (was c w);
        nothing_yet = h.nothing_yet;
        on_its_way = h.on_its_way;
        delivered = λ c d w v n. h.delivered c d (was c w) (was d v) n;
      }

  keep-IsSound :
      (k : ℤ) (xs : PacketBytes)
      → s.pending k ≡ none
      → IsSound (record s {
        log = put k (s.log k ++ (xs ∷ [])) s.log;
        pending = put k (some xs) s.pending;
      })
  keep-IsSound k xs q = record {
    distinct = h.distinct;
    known = h.known;
    nothing_yet = h.nothing_yet;
    on_its_way = λ c ys e. elim (eq_or c k) [
      | inl o ↦
          let t : some xs ≡ some ys =
            sym (put_same k (some xs) s.pending) ∙ sym (ap (put k (some xs) s.pending) o) ∙ e in
          (
            s.log k,
            ap (put k (s.log k ++ (xs ∷ [])) s.log) o
                ∙ put_same k (s.log k ++ (xs ∷ [])) s.log
                ∙ ap (λ z. s.log k ++ (z ∷ [])) (let u : xs ≡ ys = cc in u),
          )
      | inr o ↦
          let (before, l) = h.on_its_way c ys (sym (put_other k c (some xs) s.pending o) ∙ e) in
          (before, put_other k c (s.log k ++ (xs ∷ [])) s.log o ∙ l)
    ];
    delivered = λ c d w v n. elim (eq_or c k) [
      | inl o ↦
          Delivered-same (s.log k ++ (xs ∷ [])) (put k (s.log k ++ (xs ∷ [])) s.log c) (some xs)
            (put k (some xs) s.pending c) (from k (s.box d)) (from c (s.box d))
            (ap (put k (s.log k ++ (xs ∷ [])) s.log) o ∙ put_same k (s.log k ++ (xs ∷ [])) s.log)
            (ap (put k (some xs) s.pending) o ∙ put_same k (some xs) s.pending)
            (ap (λ z. from z (s.box d)) o)
            (keep-Delivered (s.log k) (s.pending k) xs (from k (s.box d)) q
              (subst (λ z. HasGot s z d) o (h.delivered c d w v n)))
      | inr o ↦
          Delivered-same (s.log c) (put k (s.log k ++ (xs ∷ [])) s.log c) (s.pending c)
            (put k (some xs) s.pending c) (from c (s.box d)) (from c (s.box d))
            (put_other k c (s.log k ++ (xs ∷ [])) s.log o) (put_other k c (some xs) s.pending o)
            refl (h.delivered c d w v n)
    ];
  }

  pass-IsSound :
      (k : ℤ) (xs : PacketBytes)
      → IsGiven s.given k
      → s.pending k ≡ some xs
      → IsSound (record s { pending = put k none s.pending; box = tell k (passed xs) s.box })
  pass-IsSound k xs g q = record {
    distinct = h.distinct;
    known = h.known;
    nothing_yet = λ n d l.
        from-tell_quiet (pos n) k d (passed xs) s.box
          (seen_other (pos n) k (passed xs) (not_given s.given n k l g))
        ∙ h.nothing_yet n d l;
    on_its_way = λ c ys e. elim (eq_or c k) [
      | inl o ↦ absurd (
          let t : none ≡ some ys =
            sym (put_same k none s.pending) ∙ sym (ap (put k none s.pending) o) ∙ e in
          ground arith)
      | inr o ↦ h.on_its_way c ys (sym (put_other k c none s.pending o) ∙ e)
    ];
    delivered = λ c d w v n. elim (eq_or c k) [
      | inl o ↦
          let apart : d ≢ k = λ e. n (o ∙ sym e) in
          Delivered-same (s.log k) (s.log c) none (put k none s.pending c)
            (from k (s.box d) ++ (xs ∷ [])) (from c (tell k (passed xs) s.box d)) (ap s.log o)
            (ap (put k none s.pending) o ∙ put_same k none s.pending)
            (ap (λ z. from z (tell k (passed xs) s.box d)) o
              ∙ from-tell k k d (passed xs) s.box apart
              ∙ ap (λ z. from k (s.box d) ++ z) (seen_same k xs))
            (pass-Delivered (s.log k) (s.pending k) xs (from k (s.box d)) q
              (subst (λ z. HasGot s z d) o (h.delivered c d w v n)))
      | inr o ↦
          Delivered-same (s.log c) (s.log c) (s.pending c) (put k none s.pending c)
            (from c (s.box d)) (from c (tell k (passed xs) s.box d)) refl
            (put_other k c none s.pending o)
            (from-tell_quiet c k d (passed xs) s.box (seen_other c k (passed xs) (λ e. o (sym e))))
            (h.delivered c d w v n)
    ];
  }

  fresh : (c : ℤ) → Within c s.members → c ≢ pos s.given
  fresh c w = not_given s.given s.given c (omega arith) (h.known c w)

  join-delivered :
      (c d : ℤ)
      → Within c (joined s).members
      → Within d (joined s).members
      → c ≢ d
      → HasGot (joined s) c d
  join-delivered c d (inl e) (inl o) n = absurd (n (e ∙ sym o))
  join-delivered c d (inl e) (inr v) n =
      Delivered-same [] ((joined s).log c) none ((joined s).pending c) []
        (from c ((joined s).box d)) (ap (joined s).log e ∙ put_same (pos s.given) [] s.log)
        (ap (joined s).pending e ∙ put_same (pos s.given) none s.pending)
        (ap (λ z. from z ((joined s).box d)) e
          ∙ ap (from (pos s.given))
              (put_other (pos s.given) d (introductions s.members s.log) s.box (fresh d v))
          ∙ h.nothing_yet s.given d (omega arith))
        (Repeats-refl [])
  join-delivered c d (inr w) (inl o) n =
      Delivered-same (s.log c) ((joined s).log c) (s.pending c) ((joined s).pending c) (s.log c)
        (from c ((joined s).box d)) (put_other (pos s.given) c [] s.log (fresh c w))
        (put_other (pos s.given) c none s.pending (fresh c w))
        (ap (λ z. from c ((joined s).box z)) o
          ∙ ap (from c) (put_same (pos s.given) (introductions s.members s.log) s.box)
          ∙ from-introductions s.log c s.members h.distinct w)
        (Delivered-refl (s.log c) (s.pending c) (h.on_its_way c))
  join-delivered c d (inr w) (inr v) n =
      Delivered-same (s.log c) ((joined s).log c) (s.pending c) ((joined s).pending c)
        (from c (s.box d)) (from c ((joined s).box d))
        (put_other (pos s.given) c [] s.log (fresh c w))
        (put_other (pos s.given) c none s.pending (fresh c w))
        (ap (from c) (put_other (pos s.given) d (introductions s.members s.log) s.box (fresh d v)))
        (h.delivered c d w v n)

  join-IsSound : IsSound (joined s)
  join-IsSound = record {
    distinct = ((λ w. fresh (pos s.given) w refl), h.distinct);
    known =
        λ c w. elim w [ inl e ↦ (s.given, e, omega arith) | inr v ↦ grown s.given c (h.known c v) ];
    nothing_yet = λ n d l. elim (eq_or d (pos s.given)) [
      | inl e ↦
          ap (λ z. from (pos n) ((joined s).box z)) e
          ∙ ap (from (pos n)) (put_same (pos s.given) (introductions s.members s.log) s.box)
          ∙ from-introductions_none s.log (pos n) s.members
              (λ w. not_given s.given n (pos n) (omega arith) (h.known (pos n) w) refl)
      | inr o ↦
          ap (from (pos n)) (put_other (pos s.given) d (introductions s.members s.log) s.box o)
          ∙ h.nothing_yet n d (omega arith)
    ];
    on_its_way = λ c xs e. elim (eq_or c (pos s.given)) [
      | inl o ↦ absurd (
          let t : none ≡ some xs =
            sym (put_same (pos s.given) none s.pending)
            ∙ sym (ap (put (pos s.given) none s.pending) o)
            ∙ e in
          ground arith)
      | inr o ↦
          let (before, l) =
            h.on_its_way c xs (sym (put_other (pos s.given) c none s.pending o) ∙ e) in
          (before, put_other (pos s.given) c [] s.log o ∙ l)
    ];
    delivered = join-delivered;
  }

HubStep-IsSound : (s t : Hub) → HubStep s t → IsSound s → IsSound t
HubStep-IsSound s t (join e) h = subst IsSound (sym e) (join-IsSound s h)
HubStep-IsSound s t (arrive k e) h =
    subst IsSound (sym e) (tell-IsSound s h k arrived (λ c. seen_quiet_arrived c k))
HubStep-IsSound s t (depart k e) h =
    subst IsSound (sym e) (tell-IsSound s h k departed (λ c. seen_quiet_departed c k))
HubStep-IsSound s t (keep k xs q e) h = subst IsSound (sym e) (keep-IsSound s h k xs q)
HubStep-IsSound s t (pass k xs g q e) h = subst IsSound (sym e) (pass-IsSound s h k xs g q)
HubStep-IsSound s t (part before after k e o) h =
    subst IsSound (sym o) (part-IsSound s h before after k e)

pub HubReach-IsSound : {s : Hub} → HubReach s → IsSound s
HubReach-IsSound here = empty-IsSound
HubReach-IsSound (next {s} {t} r st) = HubStep-IsSound s t st (HubReach-IsSound r)
