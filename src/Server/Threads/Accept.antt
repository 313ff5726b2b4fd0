-- ===== src/Server/Threads/Accept.antt =====
-- What `server_start` of src/server.c has made of a connection, when its calls succeed.
use mathlib.Core.Path.{subst}
use sasd_protocols.Prelude.{
  ℕ, ◌≡◌, refl, sym, ap, ◌∙◌, List, [], ◌∷◌, ◌++◌, Option, none, some, ◌>>=◌, ℤ, pos, ◌+ℤ◌, arith,
}
use sasd_protocols.Prelude.Word.{mod32, wrap}
use sasd_protocols.Buffer.Types.{Handle, Allocator}
use sasd_protocols.Buffer.Push.{pushed}
use sasd_protocols.Bvec.{Bvec, contents, bv_create, bv_append}
use sasd_protocols.Bvec.Laws.{IsBvec}
use sasd_protocols.Bvec.Success.{IsFinite, same_value, bv_create-some}
use sasd_protocols.Packets.Types.{handshake}
use sasd_protocols.Packets.Serialize.{packet_serialize}
use sasd_protocols.Server.{
  Client, Context, introduce, server_client_register, client_create, accept_client, client_notify,
  hbuffer_size, sbuffer_size,
}
use sasd_protocols.Server.Relay.{Gained}
use sasd_protocols.Server.Threads.Bytes.{bound, append-Gained}
use sasd_protocols.Server.Threads.Handlers.{IsClient, introduction, introduce-some}

bytes_of : Option Handle → List ℕ
bytes_of none = []
bytes_of (some h) = pushed h

-- The first packet that a client is sent.
pub handshake_bytes : Allocator → ℤ → List ℕ
handshake_bytes heap id = bytes_of (packet_serialize heap (handshake id))

-- The client of a connection, with the next number, in front of those that were there.
pub record Accepted (heap : Allocator) (ctx ctx' : Context) : Type 0 where
  pub client : Client
  pub valid : IsClient client
  pub clients : ctx'.clients ≡ client ∷ ctx.clients
  pub counted : ctx'.client_count ≡ wrap mod32 (ctx.client_count +ℤ pos 1)
  pub number : client.id ≡ ctx.client_count
  pub no_history : contents client.hbuffer ≡ []
  pub greeted :
      contents client.sbuffer
      ≡ handshake_bytes heap ctx.client_count ++ introduction heap ctx.clients

record Created (c : Client) : Type 0 where
  valid : IsClient c
  no_history : contents c.hbuffer ≡ []
  no_data : contents c.sbuffer ≡ []

module _ (heap : Allocator) (finite : IsFinite heap) where
  client_create-Created : (c : Client) → client_create heap ≡ some c → Created c
  unfolding client_create
  client_create-Created c e =
      let (h, q, r) =
        bound (bv_create heap hbuffer_size)
          (λ h. bv_create heap sbuffer_size >>= λ s.
            some (record { id = pos 0; hbuffer = h; sbuffer = s; notified = 0 }))
          c e in
      let (s, t, u) =
        bound (bv_create heap sbuffer_size)
          (λ s. some (record { id = pos 0; hbuffer = h; sbuffer = s; notified = 0 })) c r in
      let (valid_h, empty_h) = bv_create-some heap h hbuffer_size (omega arith) q in
      let (valid_s, empty_s) = bv_create-some heap s sbuffer_size (omega arith) t in
      subst Created (same_value u) (record {
        valid = record { history = valid_h; send_buffer = valid_s };
        no_history = empty_h;
        no_data = empty_s;
      })

  server_client_register-Gained :
      (c : Client) (ctx ctx' : Context)
      → IsBvec c.sbuffer
      → server_client_register heap c ctx ≡ some ctx'
      → (s : Bvec) × Gained c.sbuffer (introduction heap ctx.clients) s
        × (record ctx { clients = record c { sbuffer = s } ∷ ctx.clients } ≡ ctx')
  unfolding server_client_register
  server_client_register-Gained c ctx ctx' h e =
      let (s, q, r) =
        bound (introduce heap ctx.clients c.sbuffer)
          (λ s. some (record ctx { clients = record c { sbuffer = s } ∷ ctx.clients })) ctx' e in
      (s, introduce-some heap finite ctx.clients c.sbuffer s h q, same_value r)

  pub accept_client-Accepted :
      (ctx ctx' : Context) → accept_client heap ctx ≡ some ctx' → Accepted heap ctx ctx'
  unfolding accept_client handshake_bytes bytes_of client_notify
  accept_client-Accepted ctx ctx' e =
      let id = ctx.client_count in
      let counting : Context = record ctx { client_count = wrap mod32 (id +ℤ pos 1) } in
      let ready : Client → Bvec → Client =
        λ c s. client_notify (record c { id = id; sbuffer = s }) in
      let (c, q, e') =
        bound (client_create heap)
          (λ c. packet_serialize heap (handshake id) >>= λ hdata.
            bv_append heap c.sbuffer (pushed hdata) >>= λ s.
            server_client_register heap (ready c s) counting)
          ctx' e in
      let (hdata, r, e'') =
        bound (packet_serialize heap (handshake id))
          (λ hdata. bv_append heap c.sbuffer (pushed hdata) >>= λ s.
            server_client_register heap (ready c s) counting)
          ctx' e' in
      let (s, t, last) =
        bound (bv_append heap c.sbuffer (pushed hdata))
          (λ s. server_client_register heap (ready c s) counting) ctx' e'' in
      let created = client_create-Created c q in
      let g = append-Gained heap finite c.sbuffer s (pushed hdata) created.valid.send_buffer t in
      let (u, k, o) = server_client_register-Gained (ready c s) counting ctx' g.valid last in
      record {
        client = record (ready c s) { sbuffer = u };
        valid = record { history = created.valid.history; send_buffer = k.valid };
        clients = sym (ap (λ x. x.clients) o);
        counted = sym (ap (λ x. x.client_count) o);
        number = refl;
        no_history = created.no_history;
        greeted =
            k.appended
            ∙ ap (λ b. b ++ introduction heap ctx.clients)
                (g.appended ∙ ap (λ b. b ++ pushed hdata) created.no_data ∙ sym (ap bytes_of r));
      }
