-- ===== src/Server/Threads/Handlers.antt =====
-- What the handlers of src/server.c do to the clients, when they succeed.
use mathlib.Core.Path.{subst}
use sasd_protocols.Prelude.{
  ℕ, ◌≡◌, inl, inr, refl, sym, ap, ◌∙◌, List, [], ◌∷◌, ◌++◌, All, Option, none, some, append-nil,
  Bool-cases, ◌>>=◌, ℤ, eqb_ℤ, eqb_ℤ→eq,
}
use sasd_protocols.Buffer.Types.{Handle, Allocator}
use sasd_protocols.Buffer.Push.{pushed}
use sasd_protocols.Bvec.{Bvec, contents, bv_append}
use sasd_protocols.Bvec.Laws.{IsBvec}
use sasd_protocols.Bvec.Success.{IsFinite, same_value}
use sasd_protocols.Packets.Types.{Payload, connected}
use sasd_protocols.Packets.Serialize.{packet_serialize}
use sasd_protocols.Server.{
  Client, Context, each_client, pass_on, server_broadcast, announce, remember, introduce,
  bv_append_with_sender_id, client_notify,
}
use sasd_protocols.Server.Relay.{Gained, PassedOn, Each, different}
use sasd_protocols.Server.Round.{Remembered}
use sasd_protocols.Server.Threads.Bytes.{
  framed, bound, append-Gained, Gained-trans, with_sender-Gained,
}

-- Both buffers of a client are well-formed.
pub record IsClient (c : Client) : Type 0 where
  pub history : IsBvec c.hbuffer
  pub send_buffer : IsBvec c.sbuffer

pub each_client-some :
    (P : Client → Type 0) (R : Client → Client → Type 0) (f : Client → Option Client)
    (cs cs' : List Client)
    → ((c c' : Client) → P c → f c ≡ some c' → R c c')
    → All P cs
    → each_client f cs ≡ some cs'
    → Each R cs cs'
unfolding each_client
each_client-some P R f [] cs' k ps e = subst (Each R []) (same_value e) tt
each_client-some P R f (c ∷ cs) cs' k (p, ps) e =
    let (d, q, r) = bound (f c) (λ d. each_client f cs >>= λ ds. some (d ∷ ds)) cs' e in
    let (ds, t, u) = bound (each_client f cs) (λ ds. some (d ∷ ds)) cs' r in
    subst (Each R (c ∷ cs)) (same_value u) (k c d p q, each_client-some P R f cs ds k ps t)

-- The bytes of a packet without a payload, or of any other, with its sender put in.
pub sent_packet : Allocator → ℤ → Option Handle → List ℕ
sent_packet heap id none = []
sent_packet heap id (some h) = framed heap id (pushed h)

pub announced : Allocator → Payload → ℤ → List ℕ
announced heap p id = sent_packet heap id (packet_serialize heap p)

-- What a new client is sent about those that are there.
unfoldable pub introduction : Allocator → List Client → List ℕ
introduction heap [] = []
introduction heap (c ∷ cs) =
    announced heap connected c.id ++ (contents c.hbuffer ++ introduction heap cs)

module _ (heap : Allocator) (finite : IsFinite heap) where
  pass_on-some :
      (id : ℤ) (xs : List ℕ) (c c' : Client)
      → IsClient c
      → pass_on heap id xs c ≡ some c'
      → PassedOn id (framed heap id xs) c c'
  unfolding pass_on client_notify
  pass_on-some id xs c c' h e = elim (Bool-cases (eqb_ℤ c.id id)) [
    | inl t ↦
        let alone : pass_on heap id xs c ≡ some c = rw t refl in
        subst (PassedOn id (framed heap id xs) c) (same_value (sym alone ∙ e))
          (record { same_id = refl; same_history = refl; outcome = inl (eqb_ℤ→eq c.id id t, refl) })
    | inr t ↦
        let (s, q, r) =
          bound (bv_append_with_sender_id heap c.sbuffer id xs)
            (λ s. some (client_notify (record c { sbuffer = s }))) c'
            (let sent : pass_on heap id xs c ≡ (
                  bv_append_with_sender_id heap c.sbuffer id xs >>= λ s.
                  some (client_notify (record c { sbuffer = s }))) =
                rw t refl in
              sym sent ∙ e) in
        subst (PassedOn id (framed heap id xs) c) (same_value r) (record {
          same_id = refl;
          same_history = refl;
          outcome = inr (
            different c.id id t,
            with_sender-Gained heap finite c.sbuffer s id xs h.send_buffer q,
            refl,
          );
        })
  ]

  pub server_broadcast-some :
      (id : ℤ) (xs : List ℕ) (ctx ctx' : Context)
      → All IsClient ctx.clients
      → server_broadcast heap id xs ctx ≡ some ctx'
      → (ctx'.client_count ≡ ctx.client_count)
        × Each (PassedOn id (framed heap id xs)) ctx.clients ctx'.clients
  unfolding server_broadcast
  server_broadcast-some id xs ctx ctx' h e =
      let (cs, q, r) =
        bound (each_client (pass_on heap id xs) ctx.clients)
          (λ cs. some (record ctx { clients = cs })) ctx' e in
      let t = same_value r in
      (
        sym (ap (λ x. x.client_count) t),
        subst (λ x. Each (PassedOn id (framed heap id xs)) ctx.clients x.clients) t
            (each_client-some IsClient (PassedOn id (framed heap id xs)) (pass_on heap id xs)
              ctx.clients cs (pass_on-some id xs) h q),
      )

  pub announce-some :
      (p : Payload) (id : ℤ) (ctx ctx' : Context)
      → All IsClient ctx.clients
      → announce heap p id ctx ≡ some ctx'
      → (ctx'.client_count ≡ ctx.client_count)
        × Each (PassedOn id (announced heap p id)) ctx.clients ctx'.clients
  unfolding announce announced sent_packet
  announce-some p id ctx ctx' h e =
      let (b, q, r) =
        bound (packet_serialize heap p) (λ b. server_broadcast heap id (pushed b) ctx) ctx' e in
      rw q (server_broadcast-some id (pushed b) ctx ctx' h r)

  remember-some :
      (id : ℤ) (xs : List ℕ) (c c' : Client)
      → IsClient c
      → remember heap id xs c ≡ some c'
      → Remembered id (framed heap id xs) c c'
  unfolding remember
  remember-some id xs c c' h e = elim (Bool-cases (eqb_ℤ c.id id)) [
    | inl t ↦
        let (b, q, r) =
          bound (bv_append_with_sender_id heap c.hbuffer id xs)
            (λ b. some (record c { hbuffer = b })) c'
            (let kept : remember heap id xs c ≡ (
                  bv_append_with_sender_id heap c.hbuffer id xs >>= λ b.
                  some (record c { hbuffer = b })) =
                rw t refl in
              sym kept ∙ e) in
        subst (Remembered id (framed heap id xs) c) (same_value r) (record {
          same_id = refl;
          same_buffer = refl;
          same_notified = refl;
          outcome =
              inl
                (eqb_ℤ→eq c.id id t, with_sender-Gained heap finite c.hbuffer b id xs h.history q);
        })
    | inr t ↦
        let alone : remember heap id xs c ≡ some c = rw t refl in
        subst (Remembered id (framed heap id xs) c) (same_value (sym alone ∙ e)) (record {
          same_id = refl;
          same_buffer = refl;
          same_notified = refl;
          outcome = inr (different c.id id t, refl);
        })
  ]

  pub remember-Each :
      (id : ℤ) (xs : List ℕ) (cs cs' : List Client)
      → All IsClient cs
      → each_client (remember heap id xs) cs ≡ some cs'
      → Each (Remembered id (framed heap id xs)) cs cs'
  remember-Each id xs cs cs' h e =
      each_client-some IsClient (Remembered id (framed heap id xs)) (remember heap id xs) cs cs'
        (remember-some id xs) h e

  pub introduce-some :
      (cs : List Client) (s s' : Bvec)
      → IsBvec s
      → introduce heap cs s ≡ some s'
      → Gained s (introduction heap cs) s'
  unfolding introduce announced sent_packet introduction
  introduce-some [] s s' h e =
      subst (Gained s []) (same_value e)
        (record { valid = h; appended = sym (append-nil (contents s)) })
  introduce-some (c ∷ cs) s s' h e =
      let (p, q, e') =
        bound (packet_serialize heap connected)
          (λ p. bv_append_with_sender_id heap s c.id (pushed p) >>= λ t.
            bv_append heap t (contents c.hbuffer) >>= λ u. introduce heap cs u)
          s' e in
      let (t, r, e'') =
        bound (bv_append_with_sender_id heap s c.id (pushed p))
          (λ t. bv_append heap t (contents c.hbuffer) >>= λ u. introduce heap cs u) s' e' in
      let (u, o, last) =
        bound (bv_append heap t (contents c.hbuffer)) (λ u. introduce heap cs u) s' e'' in
      let g = with_sender-Gained heap finite s t c.id (pushed p) h r in
      let k = append-Gained heap finite t u (contents c.hbuffer) g.valid o in
      rw q (
        Gained-trans heap finite s t s' (framed heap c.id (pushed p))
          (contents c.hbuffer ++ introduction heap cs) g
          (Gained-trans heap finite t u s' (contents c.hbuffer) (introduction heap cs) k
            (introduce-some cs u s' k.valid last)))
