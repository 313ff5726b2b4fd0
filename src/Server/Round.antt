-- ===== src/Server/Round.antt =====
-- What one round of the loop of `client_task` in src/server.c does with a packet that was read.
use sasd_protocols.Prelude.{
  ℕ, ◌+◌, ◌≤◌, ◌≡◌, ◌≢◌, ◌⊎◌, inl, inr, refl, sym, ap, ◌∙◌, List, [], ◌∷◌, ◌++◌, length,
  length-append, take, take-append_length, drop, drop-append_length, All, some, Returns, Bool-cases,
  le→leb, ℤ, pos, eqb_ℤ, eqb_ℤ→eq, arith,
}
use mathlib.Core.Path.{subst}
use sasd_protocols.Buffer.Types.{Allocator}
use sasd_protocols.Buffer.Push.{int16_bytes, char_bytes}
use sasd_protocols.Bvec.{Bvec, contents, bv_shift}
use sasd_protocols.Bvec.Shift.{bv_shift-contents}
use sasd_protocols.Bvec.Laws.{IsBvec, Reallocs, length-contents}
use sasd_protocols.Packets.Types.{Payload}
use sasd_protocols.Packets.Layout.{packet_size, packet_bytes, payload_bytes, tag_of, IsSent}
use sasd_protocols.Packets.Serialize.Whole.{Grants}
use sasd_protocols.Packets.Deserialize.Whole.{relayed_bytes, packet_size_bounds}
use sasd_protocols.Framing.{read_size}
use sasd_protocols.Framing.Frames.{read_size-int16, bits_size}
use sasd_protocols.Server.{Client, Context, remember, packet_round}
use sasd_protocols.Server.Relay.{
  HasRoom, Gained, PassedOn, Each, each_client-Each, different, with_sender,
  server_broadcast-packet,
}

-- What a client is when its own history, if it has the number, grew by bytes.
pub record Remembered (id : ℤ) (xs : List ℕ) (c c' : Client) : Type 0 where
  pub same_id : c'.id ≡ c.id
  pub same_buffer : c'.sbuffer ≡ c.sbuffer
  pub same_notified : c'.notified ≡ c.notified
  pub outcome :
      ((c.id ≡ id) × Gained c.hbuffer xs c'.hbuffer) ⊎ ((c.id ≢ id) × (c'.hbuffer ≡ c.hbuffer))

-- What the round does to a client: the sender's history grows by the packet, any other client's
-- send buffer does, and that client is notified.
pub record Relayed (id : ℤ) (xs : List ℕ) (c c' : Client) : Type 0 where
  pub same_id : c'.id ≡ c.id
  pub outcome :
      ((c.id ≡ id)
        × Gained c.hbuffer xs c'.hbuffer
        × (c'.sbuffer ≡ c.sbuffer)
        × (c'.notified ≡ c.notified))
      ⊎ ((c.id ≢ id)
          × (c'.hbuffer ≡ c.hbuffer)
          × Gained c.sbuffer xs c'.sbuffer
          × (c'.notified ≡ c.notified + 1))

Each-compose :
    {A : Type 0} (R S T : A → A → Type 0)
    → ((x y z : A) → R x y → S y z → T x z)
    → (xs ys zs : List A) → Each R xs ys
    → Each S ys zs
    → Each T xs zs
Each-compose R S T k [] [] [] r s = tt
Each-compose R S T k [] [] (z ∷ zs) r s = absurd s
Each-compose R S T k [] (y ∷ ys) zs r s = absurd r
Each-compose R S T k (x ∷ xs) [] zs r s = absurd r
Each-compose R S T k (x ∷ xs) (y ∷ ys) [] r s = absurd s
Each-compose R S T k (x ∷ xs) (y ∷ ys) (z ∷ zs) (r, rs) (s, ss) =
    (k x y z r s, Each-compose R S T k xs ys zs rs ss)

pub Each-All :
    {A : Type 0} (P Q : A → Type 0) (R : A → A → Type 0)
    → ((x y : A) → P x → R x y → Q y)
    → (xs ys : List A) → All P xs
    → Each R xs ys
    → All Q ys
Each-All P Q R k [] [] ps r = tt
Each-All P Q R k [] (y ∷ ys) ps r = absurd r
Each-All P Q R k (x ∷ xs) [] ps r = absurd r
Each-All P Q R k (x ∷ xs) (y ∷ ys) (p, ps) (r, rs) = (k x y p r, Each-All P Q R k xs ys ps rs)

Relayed-compose :
    (id : ℤ) (xs : List ℕ) (c d e : Client)
    → Remembered id xs c d
    → PassedOn id xs d e
    → Relayed id xs c e
Relayed-compose id xs c d e r p = record {
  same_id = p.same_id ∙ r.same_id;
  outcome = outcome r.outcome p.outcome;
}
  where
    outcome :
        ((c.id ≡ id) × Gained c.hbuffer xs d.hbuffer) ⊎ ((c.id ≢ id) × (d.hbuffer ≡ c.hbuffer))
        → ((d.id ≡ id) × (e ≡ d))
          ⊎ ((d.id ≢ id) × Gained d.sbuffer xs e.sbuffer × (e.notified ≡ d.notified + 1))
        → ((c.id ≡ id)
            × Gained c.hbuffer xs e.hbuffer
            × (e.sbuffer ≡ c.sbuffer)
            × (e.notified ≡ c.notified))
          ⊎ ((c.id ≢ id)
              × (e.hbuffer ≡ c.hbuffer)
              × Gained c.sbuffer xs e.sbuffer
              × (e.notified ≡ c.notified + 1))
    outcome (inl (h, g)) (inl (k, q)) = inl (
      h,
      subst (λ w. Gained c.hbuffer xs w) (sym (ap (λ x. x.hbuffer) q)) g,
      ap (λ x. x.sbuffer) q ∙ r.same_buffer,
      ap (λ x. x.notified) q ∙ r.same_notified,
    )
    outcome (inl (h, g)) (inr (k, t, n)) = absurd (k (r.same_id ∙ h))
    outcome (inr (h, g)) (inl (k, q)) = absurd (h (sym r.same_id ∙ k))
    outcome (inr (h, g)) (inr (k, t, n)) = inr (
      h,
      p.same_history ∙ g,
      subst (λ w. Gained w xs e.sbuffer) r.same_buffer t,
      n ∙ ap (λ m. m + 1) r.same_notified,
    )

-- Room for a packet in the history and in the send buffer, after growing once if need be.
pub record HasRooms (p : Payload) (c : Client) : Type 0 where
  pub history : HasRoom (4 + packet_size p) c.hbuffer
  pub send_buffer : HasRoom (4 + packet_size p) c.sbuffer

module _ (heap : Allocator) (grants : Grants heap) (reallocs : Reallocs heap) where
  remember-Remembered :
      (id : ℤ) (p : Payload) (c : Client)
      → IsSent p
      → HasRoom (4 + packet_size p) c.hbuffer
      → Returns (Remembered id (relayed_bytes id p) c) (remember heap id (packet_bytes p) c)
  unfolding remember
  remember-Remembered id p c v r = elim (Bool-cases (eqb_ℤ c.id id)) [
    | inl e ↦
        let (w, q, g) =
          with_sender heap grants reallocs c.hbuffer id (packet_size p)
            (char_bytes (tag_of p) ++ payload_bytes p) (omega (arith, packet_size_bounds p v))
            (record { valid = r.valid; room = omega (arith, r.room); small = r.small }) in
        rw (e, q)
          (
            record c { hbuffer = w },
            refl,
            record {
              same_id = refl;
              same_buffer = refl;
              same_notified = refl;
              outcome = inl (eqb_ℤ→eq c.id id e, g);
            },
          )
    | inr e ↦ rw e (
      c,
      refl,
      record {
        same_id = refl;
        same_buffer = refl;
        same_notified = refl;
        outcome = inr (different c.id id e, refl);
      },
    )
  ]

  -- With a whole packet in front of what was read, a round removes it from there and relays it:
  -- the sender's history and the send buffers of all others grow by the packet with the sender's
  -- number put in, those others are notified, and nothing else changes. Memory does not run out,
  -- and each history and send buffer has room for the packet, if need be after it has grown by half
  -- once.
  pub packet_round-packet :
      (id : ℤ) (p : Payload) (vec : Bvec) (rest : List ℕ) (ctx : Context)
      → IsSent p
      → IsBvec vec
      → contents vec ≡ packet_bytes p ++ rest
      → All (HasRooms p) ctx.clients
      → Returns
          (λ s.
            IsBvec s.0
            × (contents s.0 ≡ rest)
            × (s.1.client_count ≡ ctx.client_count)
            × Each (Relayed id (relayed_bytes id p)) ctx.clients s.1.clients)
          (packet_round heap id (vec, ctx))
  unfolding packet_round
  packet_round-packet id p vec rest ctx v valid e rooms =
      let (cs, q, r) =
        each_client-Each (HasRooms p) (Remembered id (relayed_bytes id p))
          (remember heap id (packet_bytes p)) ctx.clients
          (λ c h. remember-Remembered id p c v h.history) rooms in
      let after : Context = record ctx { clients = cs } in
      let (ctx', sent, (count, t)) =
        server_broadcast-packet heap grants reallocs id p after v (rooms_after cs r) in
      let n = packet_size p in
      let exact : length (packet_bytes p) ≡ n = omega arith in
      let whole = ap length e in
      let fits : n ≤ vec.wptr =
        omega
          (arith, length-contents vec valid, whole, exact, length-append (packet_bytes p) rest) in
      let (valid', kept) = bv_shift-contents n vec valid fits in
      let size_read : read_size heap (int16_bytes (pos n)) ≡ some (pos n) =
        read_size-int16 heap (pos n) [] grants (omega (arith, packet_size_bounds p v), omega arith)
          (omega arith) in
      let taken : take n (packet_bytes p ++ rest) ≡ packet_bytes p =
        ap (λ k. take k (packet_bytes p ++ rest)) (sym exact)
        ∙ take-append_length (packet_bytes p) rest in
      let dropped : drop n (packet_bytes p ++ rest) ≡ rest =
        ap (λ k. drop k (packet_bytes p ++ rest)) (sym exact)
        ∙ drop-append_length (packet_bytes p) rest in
      rw
        (
          e,
          size_read,
          bits_size n (omega (arith, packet_size_bounds p v)),
          taken,
          q,
          sent,
          le→leb n vec.wptr fits,
        )
        (
          (bv_shift n vec, ctx'),
          refl,
          (
            valid',
            kept ∙ ap (drop n) e ∙ dropped,
            count,
            Each-compose (Remembered id (relayed_bytes id p)) (PassedOn id (relayed_bytes id p))
                (Relayed id (relayed_bytes id p)) (Relayed-compose id (relayed_bytes id p))
                ctx.clients cs ctx'.clients r t,
          ),
        )
    where
      rooms_after :
          (cs : List Client)
          → Each (Remembered id (relayed_bytes id p)) ctx.clients cs
          → All (λ c. HasRoom (4 + packet_size p) c.sbuffer) cs
      rooms_after cs r =
          Each-All (λ c. HasRoom (4 + packet_size p) c.sbuffer)
            (λ c. HasRoom (4 + packet_size p) c.sbuffer) (Remembered id (relayed_bytes id p))
            (λ c d h m. subst (λ w. HasRoom (4 + packet_size p) w) (sym m.same_buffer) h)
            ctx.clients cs (send_rooms ctx.clients rooms) r
        where
          send_rooms :
              (cs : List Client)
              → All (HasRooms p) cs
              → All (λ c. HasRoom (4 + packet_size p) c.sbuffer) cs
          send_rooms [] hs = tt
          send_rooms (c ∷ cs) (h, hs) = (h.send_buffer, send_rooms cs hs)
