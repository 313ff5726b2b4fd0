-- ===== src/Server/Threads/Joins.antt =====
-- A connection that src/server.c accepts makes a new member of the hub.
use mathlib.Core.Path.{subst}
use sasd_protocols.Prelude.{
  ℕ, suc, ◌+◌, ◌^◌, ◌<◌, ◌≡◌, ◌≢◌, inl, inr, refl, sym, ap, ◌∙◌, [], ◌∷◌, ◌++◌, map, All, some,
  false, pos, ◌+ℤ◌, arith,
}
use sasd_protocols.Prelude.Word.{wrap, mod32, signed-bits_32}
use sasd_protocols.Buffer.Types.{Allocator}
use sasd_protocols.Bvec.{contents}
use sasd_protocols.Bvec.Success.{IsFinite}
use sasd_protocols.Packets.Serialize.Whole.{pos-add}
use sasd_protocols.Server.{accept_client, Client, Context}
use sasd_protocols.Server.Threads.{System, starting}
use sasd_protocols.Server.Threads.Hub.{Hub, put, introductions, joined}
use sasd_protocols.Server.Threads.Hub.Boxes.{Within, eq_or, put_same, put_other}
use sasd_protocols.Server.Threads.Hub.Delivery.{IsSound, not_given}
use sasd_protocols.Server.Threads.Handlers.{introduction}
use sasd_protocols.Server.Threads.Accept.{Accepted, handshake_bytes, accept_client-Accepted}
use sasd_protocols.Server.Threads.Moves.{present-put, stored-put}
use sasd_protocols.Server.Threads.Apart.{All-both, Within-id}
use sasd_protocols.Server.Threads.Buffers.{IsLinked-by}
use sasd_protocols.Server.Threads.Link.{
  log_bytes, box_bytes, pending_of, IsLinked, Linked, box_bytes-introductions,
}

module _ (heap : Allocator) (finite : IsFinite heap) (s : System) (h : Hub) (sound : IsSound h)
    (l : Linked heap s h) where
  -- Its number is new to the clients that are there.
  new_number : All (λ c. c.id ≢ pos h.given) s.ctx.clients
  new_number =
      Within-id (λ i. i ≢ pos h.given) s.ctx.clients
        (λ i w.
          not_given h.given h.given i (omega arith)
            (sound.known i (subst (λ ms. Within i ms) (sym l.members) w)))

  unchanged :
      (c : Client)
      → IsLinked heap s.taken h.log h.box c
      → c.id ≢ pos h.given
      → IsLinked heap (put (pos h.given) [] s.taken) (joined h).log (joined h).box c
  unchanged c p n =
      IsLinked-by heap (put (pos h.given) [] s.taken) (joined h).log (joined h).box c.id c refl
        p.valid.history p.valid.send_buffer
        (p.history ∙ ap (log_bytes heap c.id) (sym (put_other (pos h.given) c.id [] h.log n)))
        (ap (λ b. b ++ contents c.sbuffer) (put_other (pos h.given) c.id [] s.taken n)
          ∙ p.sent
          ∙ ap (λ b. handshake_bytes heap c.id ++ box_bytes heap b)
              (sym (put_other (pos h.given) c.id (introductions h.members h.log) h.box n)))

  welcomed :
      (ctx : Context) (a : Accepted heap s.ctx ctx)
      → IsLinked heap (put (pos h.given) [] s.taken) (joined h).log (joined h).box a.client
  unfolding log_bytes
  welcomed ctx a =
      IsLinked-by heap (put (pos h.given) [] s.taken) (joined h).log (joined h).box (pos h.given)
        a.client (a.number ∙ l.counted) a.valid.history a.valid.send_buffer
        (a.no_history ∙ ap (log_bytes heap (pos h.given)) (sym (put_same (pos h.given) [] h.log)))
        (ap (λ b. b ++ contents a.client.sbuffer) (put_same (pos h.given) [] s.taken)
          ∙ a.greeted
          ∙ ap (λ i. handshake_bytes heap i ++ introduction heap s.ctx.clients) l.counted
          ∙ ap (λ b. handshake_bytes heap (pos h.given) ++ b)
              (sym (box_bytes-introductions heap s.taken h.log h.box s.ctx.clients l.buffers)
                ∙ ap (λ ms. box_bytes heap (introductions ms h.log)) (sym l.members)
                ∙ ap (box_bytes heap)
                    (sym (put_same (pos h.given) (introductions h.members h.log) h.box))))

  counted_on : (n : ℕ) → suc n < 2 ^ 31 → wrap mod32 (pos n +ℤ pos 1) ≡ pos (suc n)
  counted_on n le = rw (pos-add n 1) (
      signed-bits_32 (pos (n + 1)) (omega arith, omega arith)
      ∙ ap pos (let q : n + 1 ≡ suc n = omega arith in q))

  pub accept-Linked :
      (ctx : Context)
      → suc h.given < 2 ^ 31
      → accept_client heap s.ctx ≡ some ctx
      → Linked heap
          (record {
            ctx = ctx;
            stage = put (pos h.given) starting s.stage;
            wire = put (pos h.given) [] s.wire;
            taken = put (pos h.given) [] s.taken;
            broken = put (pos h.given) false s.broken;
          })
          (joined h)
  unfolding pending_of
  accept-Linked ctx le e =
      let a = accept_client-Accepted heap finite s.ctx ctx e in
      record {
        counted = a.counted ∙ ap (λ z. wrap mod32 (z +ℤ pos 1)) l.counted ∙ counted_on h.given le;
        members =
            ap (λ i. i ∷ h.members) (sym (a.number ∙ l.counted))
            ∙ ap (λ is. a.client.id ∷ is) l.members
            ∙ sym (ap (map (λ c. c.id)) a.clients);
        buffers =
            subst (All (IsLinked heap (put (pos h.given) [] s.taken) (joined h).log (joined h).box))
              (sym a.clients)
              (
                welcomed ctx a,
                All-both (IsLinked heap s.taken h.log h.box) (λ c. c.id ≢ pos h.given)
                    (IsLinked heap (put (pos h.given) [] s.taken) (joined h).log (joined h).box)
                    s.ctx.clients unchanged l.buffers new_number,
              );
        present =
            present-put s.stage (joined h).members (pos h.given) starting (inl refl)
              (λ id. elim (l.present id) [ inl q ↦ inl q | inr w ↦ inr (inr w) ]);
        whole = λ id ok. elim (eq_or id (pos h.given)) [
          | inl q ↦
              ap (put (pos h.given) [] s.wire) q
              ∙ put_same (pos h.given) [] s.wire
              ∙ sym (put_same (pos h.given) [] s.taken)
              ∙ sym (ap (put (pos h.given) [] s.taken) q)
          | inr n ↦
              put_other (pos h.given) id [] s.wire n
              ∙ l.whole id (sym (put_other (pos h.given) id false s.broken n) ∙ ok)
              ∙ sym (put_other (pos h.given) id [] s.taken n)
        ];
        stored = stored-put s.stage h.pending (pos h.given) starting l.stored;
      }
