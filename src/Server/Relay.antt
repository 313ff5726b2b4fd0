-- ===== src/Server/Relay.antt =====
-- What src/server.c puts into the buffers of its clients when a packet is passed on.
use sasd_protocols.Prelude.{
  ℕ, ◌+◌, ◌^◌, ◌≤◌, ◌<◌, ◌≡◌, ◌≢◌, refl, sym, ap, ◌∙◌, List, [], ◌∷◌, ◌++◌, length, append_assoc,
  All, Option, some, Returns, true, false, Bool-cases, inl, inr, ℤ, pos, ◌+ℤ◌, eqb_ℤ, eqb_ℤ→eq, ◌⊎◌,
  arith,
}
use sasd_protocols.Prelude.Word.{mod16, mod64, wrap, signed-bits_16}
use sasd_protocols.Buffer.Types.{Allocator}
use sasd_protocols.Buffer.Push.{int16_bytes, int32_bytes, char_bytes}
use sasd_protocols.Buffer.Push.Fits.{buffer_create-holding, pushed-holding}
use sasd_protocols.Bvec.{Bvec, contents}
use sasd_protocols.Bvec.Laws.{IsBvec, Reallocs, grown_size, bv_append-Appended}
use sasd_protocols.Packets.Types.{Payload}
use sasd_protocols.Packets.Layout.{packet_size, packet_bytes, payload_bytes, tag_of, IsSent}
use sasd_protocols.Packets.Serialize.Fills.{int16-Fills, int32-Fills}
use sasd_protocols.Packets.Serialize.Whole.{Grants, pos-add}
use sasd_protocols.Packets.Deserialize.Whole.{relayed_bytes, packet_size_bounds}
use sasd_protocols.Framing.{read_size}
use sasd_protocols.Framing.Frames.{read_size-int16}
use sasd_protocols.Server.{
  Client, Context, prepended, bv_append_with_sender_id, each_client, pass_on, server_broadcast,
  client_notify,
}

-- A well-formed vector with room for `n` bytes, if need be after it has grown by half once.
pub record HasRoom (n : ℕ) (v : Bvec) : Type 0 where
  pub valid : IsBvec v
  pub room : v.wptr + n ≤ grown_size v
  pub small : v.size < 2 ^ 60

-- What a vector holds when bytes came behind what it held.
pub record Gained (v : Bvec) (xs : List ℕ) (w : Bvec) : Type 0 where
  pub valid : IsBvec w
  pub appended : contents w ≡ contents v ++ xs

-- What a broadcast of `xs` under the number `id` does to a client: nothing to the sender; any other
-- one has the bytes behind those in its send buffer, and is notified.
pub record PassedOn (id : ℤ) (xs : List ℕ) (c c' : Client) : Type 0 where
  pub same_id : c'.id ≡ c.id
  pub same_history : c'.hbuffer ≡ c.hbuffer
  pub outcome :
      ((c.id ≡ id) × (c' ≡ c))
      ⊎ ((c.id ≢ id) × Gained c.sbuffer xs c'.sbuffer × (c'.notified ≡ c.notified + 1))

-- The lists have the same length, and their elements are related in order.
abbrev pub Each : {A : Type 0} → (A → A → Type 0) → List A → List A → Type 0
Each R [] [] = Unit
Each R [] (y ∷ ys) = ⊥
Each R (x ∷ xs) [] = ⊥
Each R (x ∷ xs) (y ∷ ys) = R x y × Each R xs ys

pub eqb_ℤ_refl : (a : ℤ) → eqb_ℤ a a ≡ true
eqb_ℤ_refl a = ground arith

pub different : (a b : ℤ) → eqb_ℤ a b ≡ false → a ≢ b
different a b h e =
    absurd (let q : true ≡ false = sym (eqb_ℤ_refl a) ∙ ap (eqb_ℤ a) e ∙ h in ground arith)

pub each_client-Each :
    (P : Client → Type 0) (R : Client → Client → Type 0) (f : Client → Option Client)
    (cs : List Client)
    → ((c : Client) → P c → Returns (R c) (f c))
    → All P cs
    → Returns (Each R cs) (each_client f cs)
unfolding each_client
each_client-Each P R f [] k ps = ([], refl, tt)
each_client-Each P R f (c ∷ cs) k (p, ps) =
    let (c', e, r) = k c p in
    let (cs', es, rs) = each_client-Each P R f cs k ps in rw (e, es) (c' ∷ cs', refl, (r, rs))

module _ (heap : Allocator) (grants : Grants heap) (reallocs : Reallocs heap) where
  prepended_lem : (z id : ℤ) → prepended heap z id ≡ int16_bytes z ++ int32_bytes id
  unfolding prepended
  prepended_lem z id =
      let small : 6 < mod64 = omega arith in
      rw
        (
          buffer_create-holding heap 6 (grants 6),
          (int16-Fills heap small z).fill [] (omega arith),
          (int32-Fills heap small id).fill (int16_bytes z) (omega arith),
        )
        (pushed-holding 6 (int16_bytes z ++ int32_bytes id))

  sized : (n : ℕ) → n ≤ 1000 → wrap mod16 (pos n +ℤ pos 4) ≡ pos (n + 4)
  sized n h = rw (pos-add n 4) (signed-bits_16 (pos (n + 4)) (omega arith, omega arith))

  -- A packet goes out with its sender behind a size that counts it.
  pub with_sender :
      (v : Bvec) (id : ℤ) (n : ℕ) (body : List ℕ)
      → n ≤ 1000
      → HasRoom (4 + (2 + length body)) v
      → Returns
          (Gained v (int16_bytes (pos (n + 4)) ++ (int32_bytes id ++ body)))
          (bv_append_with_sender_id heap v id (int16_bytes (pos n) ++ body))
  unfolding bv_append_with_sender_id
  with_sender v id n body small r =
      let head = int16_bytes (pos (n + 4)) ++ int32_bytes id in
      let (w, q, a) =
        bv_append-Appended heap v head r.valid reallocs (omega (arith, r.small))
          (omega (arith, r.room)) in
      let (u, t, b) =
        bv_append-Appended heap w body a.valid reallocs (omega (arith, a.bounded, r.small))
          (omega (arith, a.length_now, a.larger, r.room)) in
      let size_read : read_size heap (int16_bytes (pos n)) ≡ some (pos n) =
        read_size-int16 heap (pos n) [] grants (omega arith, omega arith) (omega arith) in
      rw (size_read, sized n small, prepended_lem (pos (n + 4)) id, q, t)
        (
          u,
          refl,
          record {
            valid = b.valid;
            appended =
                b.appended ∙ ap (λ xs. xs ++ body) a.appended ∙ append_assoc (contents v) head body;
          },
        )

  pub pass_on-PassedOn :
      (id : ℤ) (p : Payload) (c : Client)
      → IsSent p
      → HasRoom (4 + packet_size p) c.sbuffer
      → Returns (PassedOn id (relayed_bytes id p) c) (pass_on heap id (packet_bytes p) c)
  unfolding pass_on client_notify
  pass_on-PassedOn id p c v r = elim (Bool-cases (eqb_ℤ c.id id)) [
    | inl e ↦ rw e (
      c,
      refl,
      record { same_id = refl; same_history = refl; outcome = inl (eqb_ℤ→eq c.id id e, refl) },
    )
    | inr e ↦
        let body = char_bytes (tag_of p) ++ payload_bytes p in
        let (w, q, g) =
          with_sender c.sbuffer id (packet_size p) body (omega (arith, packet_size_bounds p v))
            (record { valid = r.valid; room = omega (arith, r.room); small = r.small }) in
        rw (e, q)
          (
            client_notify (record c { sbuffer = w }),
            refl,
            record {
              same_id = refl;
              same_history = refl;
              outcome = inr (different c.id id e, g, refl);
            },
          )
  ]

  -- A broadcast of a packet, as `packet_serialize` makes it, leaves the list of the clients with
  -- their order, numbers and histories. Each client but the sender has the packet, with the
  -- sender's number put in, behind what its send buffer held, and is notified; the sender is left
  -- alone. Memory does not run out, and each send buffer has room for the packet, if need be after
  -- it has grown by half once.
  pub server_broadcast-packet :
      (id : ℤ) (p : Payload) (ctx : Context)
      → IsSent p
      → All (λ c. HasRoom (4 + packet_size p) c.sbuffer) ctx.clients
      → Returns
          (λ ctx'.
            (ctx'.client_count ≡ ctx.client_count)
            × Each (PassedOn id (relayed_bytes id p)) ctx.clients ctx'.clients)
          (server_broadcast heap id (packet_bytes p) ctx)
  unfolding server_broadcast
  server_broadcast-packet id p ctx v rooms =
      let (cs, e, r) =
        each_client-Each (λ c. HasRoom (4 + packet_size p) c.sbuffer)
          (PassedOn id (relayed_bytes id p)) (pass_on heap id (packet_bytes p)) ctx.clients
          (λ c. pass_on-PassedOn id p c v) rooms in
      rw e (record ctx { clients = cs }, refl, (refl, r))
