-- ===== src/Server/Threads/Buffers.antt =====
-- How the handlers of src/server.c change what the buffers stand for.
use mathlib.Core.Path.{subst}
use sasd_protocols.Prelude.{
  ℕ, ◌≡◌, inl, inr, refl, sym, ap, ◌∙◌, List, [], ◌∷◌, ◌++◌, map, All, append_assoc, ℤ,
}
use sasd_protocols.Buffer.Types.{Allocator}
use sasd_protocols.Bvec.{contents}
use sasd_protocols.Bvec.Laws.{IsBvec}
use sasd_protocols.Server.{Client}
use sasd_protocols.Server.Relay.{PassedOn, Each}
use sasd_protocols.Server.Round.{Remembered}
use sasd_protocols.Server.Threads.Hub.{PacketBytes, Note, put, tell}
use sasd_protocols.Server.Threads.Hub.Boxes.{put_same, put_other, tell_own, tell_other}
use sasd_protocols.Server.Threads.Bytes.{framed}
use sasd_protocols.Server.Threads.Accept.{handshake_bytes}
use sasd_protocols.Server.Threads.Link.{
  note_bytes, log_bytes, box_bytes, IsLinked, log_bytes-snoc, box_bytes-snoc,
}

pub Each-ids :
    (R : Client → Client → Type 0) (cs ds : List Client)
    → ((c d : Client) → R c d → d.id ≡ c.id)
    → Each R cs ds
    → map (λ c. c.id) ds ≡ map (λ c. c.id) cs
Each-ids R [] [] k r = refl
Each-ids R [] (d ∷ ds) k r = absurd r
Each-ids R (c ∷ cs) [] k r = absurd r
Each-ids R (c ∷ cs) (d ∷ ds) k (r, rs) =
    ap (λ i. i ∷ map (λ c. c.id) ds) (k c d r) ∙ ap (λ is. c.id ∷ is) (Each-ids R cs ds k rs)

pub All-map :
    {A : Type 0} (P Q : A → Type 0) (xs : List A) → ((x : A) → P x → Q x) → All P xs → All Q xs
All-map P Q [] k ps = tt
All-map P Q (x ∷ xs) k (p, ps) = (k x p, All-map P Q xs k ps)

module _ (heap : Allocator) where
  -- The equations may speak of the number that the client had.
  pub IsLinked-by :
      (wire : ℤ → List ℕ) (log : ℤ → List PacketBytes) (box : ℤ → List (ℤ × Note)) (i : ℤ)
      (d : Client)
      → d.id ≡ i
      → IsBvec d.hbuffer
      → IsBvec d.sbuffer
      → contents d.hbuffer ≡ log_bytes heap i (log i)
      → wire i ++ contents d.sbuffer ≡ handshake_bytes heap i ++ box_bytes heap (box i)
      → IsLinked heap wire log box d
  IsLinked-by wire log box i d e v w history sent = record {
    valid = record { history = v; send_buffer = w };
    history = subst (λ j. contents d.hbuffer ≡ log_bytes heap j (log j)) (sym e) history;
    sent =
        subst (λ j. wire j ++ contents d.sbuffer ≡ handshake_bytes heap j ++ box_bytes heap (box j))
          (sym e) sent;
  }

  -- The others are told: a client's send buffer grows by what its box does.
  pub told :
      (wire : ℤ → List ℕ) (log : ℤ → List PacketBytes) (box : ℤ → List (ℤ × Note)) (id : ℤ)
      (note : Note) (c d : Client)
      → PassedOn id (note_bytes heap id note) c d
      → IsLinked heap wire log box c
      → IsLinked heap wire log (tell id note box) d
  told wire log box id note c d p l =
      let history : contents d.hbuffer ≡ log_bytes heap c.id (log c.id) =
        ap contents p.same_history ∙ l.history in
      let valid : IsBvec d.hbuffer = subst IsBvec (sym p.same_history) l.valid.history in
      elim p.outcome [
        | inl (e, same) ↦
            let buffer : d.sbuffer ≡ c.sbuffer = ap (λ x. x.sbuffer) same in
            IsLinked-by wire log (tell id note box) c.id d p.same_id valid
              (subst IsBvec (sym buffer) l.valid.send_buffer) history
              (ap (λ b. wire c.id ++ contents b) buffer
                ∙ l.sent
                ∙ ap (λ b. handshake_bytes heap c.id ++ box_bytes heap b)
                    (ap box e ∙ sym (tell_own id note box) ∙ sym (ap (tell id note box) e)))
        | inr (n, g, notified) ↦
            IsLinked-by wire log (tell id note box) c.id d p.same_id valid g.valid history (
              ap (λ b. wire c.id ++ b) g.appended
              ∙ sym (append_assoc (wire c.id) (contents c.sbuffer) (note_bytes heap id note))
              ∙ ap (λ b. b ++ note_bytes heap id note) l.sent
              ∙ append_assoc (handshake_bytes heap c.id) (box_bytes heap (box c.id))
                  (note_bytes heap id note)
              ∙ ap (λ b. handshake_bytes heap c.id ++ b)
                  (sym (box_bytes-snoc heap (box c.id) id note)
                    ∙ ap (box_bytes heap) (sym (tell_other id c.id note box n))))
      ]

  pub kept :
      (wire : ℤ → List ℕ) (log : ℤ → List PacketBytes) (box : ℤ → List (ℤ × Note)) (id : ℤ)
      (xs : PacketBytes) (c d : Client)
      → Remembered id (framed heap id xs) c d
      → IsLinked heap wire log box c
      → IsLinked heap wire (put id (log id ++ (xs ∷ [])) log) box d
  kept wire log box id xs c d p l =
      let log' = put id (log id ++ (xs ∷ [])) log in
      let valid : IsBvec d.sbuffer = subst IsBvec (sym p.same_buffer) l.valid.send_buffer in
      let sent : wire c.id ++ contents d.sbuffer
          ≡ handshake_bytes heap c.id ++ box_bytes heap (box c.id) =
        ap (λ b. wire c.id ++ contents b) p.same_buffer ∙ l.sent in
      elim p.outcome [
        | inl (e, g) ↦
            let grown : log' c.id ≡ log c.id ++ (xs ∷ []) =
              ap log' e
              ∙ put_same id (log id ++ (xs ∷ [])) log
              ∙ ap (λ i. log i ++ (xs ∷ [])) (sym e) in
            IsLinked-by wire log' box c.id d p.same_id g.valid valid
              (g.appended
                ∙ ap (λ b. b ++ framed heap id xs) l.history
                ∙ ap (λ i. log_bytes heap c.id (log c.id) ++ framed heap i xs) (sym e)
                ∙ sym (log_bytes-snoc heap c.id (log c.id) xs)
                ∙ ap (log_bytes heap c.id) (sym grown))
              sent
        | inr (n, same) ↦
            IsLinked-by wire log' box c.id d p.same_id (subst IsBvec (sym same) l.valid.history)
              valid
              (ap contents same
                ∙ l.history
                ∙ ap (log_bytes heap c.id) (sym (put_other id c.id (log id ++ (xs ∷ [])) log n)))
              sent
      ]
