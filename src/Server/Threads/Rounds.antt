-- ===== src/Server/Threads/Rounds.antt =====
-- A round of the loop over the packets of src/server.c is a sequence of steps of its thread.
use sasd_protocols.Prelude.{
  ℕ, ◌≤◌, ◌<◌, ◌≡◌, ◌⊎◌, inl, inr, refl, ap, ◌∙◌, some, Bool-cases, leb, if◌then◌else◌, take, ◌>>=◌,
  ℤ, List, Option, arith,
}
use sasd_protocols.Prelude.Word.{bits, mod64}
use sasd_protocols.Buffer.Types.{Allocator}
use sasd_protocols.Bvec.{Bvec, contents, bv_shift}
use sasd_protocols.Bvec.Success.{same_value}
use sasd_protocols.Framing.{read_size}
use sasd_protocols.Server.{Client, Context, packet_round, each_client, remember, server_broadcast}
use sasd_protocols.Server.Threads.{System, reading, passing, ServerStep, keep, pass}
use sasd_protocols.Server.Threads.Hub.{put}
use sasd_protocols.Server.Threads.Hub.Boxes.{put_same}
use sasd_protocols.Server.Threads.Bytes.{bound}

-- Two steps, one after the other, that leave the context and the thread's `vec` as they are given.
pub record InTwoSteps (heap : Allocator) (s : System) (id : ℤ) (vec : Bvec) (ctx : Context)
    : Type 0 where
  pub between : System
  pub after : System
  pub first : ServerStep heap s between
  pub second : ServerStep heap between after
  pub context : after.ctx ≡ ctx
  pub thread : after.stage id ≡ reading vec

-- What a round does with the first `n` bytes.
relayed : Allocator → ℤ → ℕ → Bvec → Context → Option (Bvec × Context)
relayed heap id n vec ctx =
    each_client (remember heap id (take n (contents vec))) ctx.clients >>= λ cs.
    server_broadcast heap id (take n (contents vec)) (record ctx { clients = cs }) >>= λ c.
    some (bv_shift n vec, c)

sent_on : Allocator → ℤ → ℕ → Bvec → Context → List Client → Option (Bvec × Context)
sent_on heap id n vec ctx cs =
    server_broadcast heap id (take n (contents vec)) (record ctx { clients = cs }) >>= λ c.
    some (bv_shift n vec, c)

shifted_by : Bvec → ℕ → Context → Option (Bvec × Context)
shifted_by vec n c = some (bv_shift n vec, c)

module _ (heap : Allocator) (s : System) (id : ℤ) (vec : Bvec) where
  relayed-InTwoSteps :
      (size : ℤ) (vec' : Bvec) (ctx' : Context)
      → s.stage id ≡ reading vec
      → 2 < vec.wptr
      → read_size heap (take 2 (contents vec)) ≡ some size
      → bits mod64 size ≤ vec.wptr
      → relayed heap id (bits mod64 size) vec s.ctx ≡ some (vec', ctx')
      → InTwoSteps heap s id vec' ctx'
  unfolding relayed sent_on shifted_by
  relayed-InTwoSteps size vec' ctx' e two q le r =
      let n = bits mod64 size in
      let xs = take n (contents vec) in
      let (cs, f, g) =
        bound (each_client (remember heap id xs) s.ctx.clients) (sent_on heap id n vec s.ctx)
          (vec', ctx') r in
      let (ctx, h, k) =
        bound (server_broadcast heap id xs (record s.ctx { clients = cs })) (shifted_by vec n)
          (vec', ctx') g in
      let mid : System = record s {
        ctx = record s.ctx { clients = cs };
        stage = put id (passing n vec) s.stage;
      } in
      record {
        between = mid;
        after = record mid { ctx = ctx; stage = put id (reading (bv_shift n vec)) mid.stage };
        first = keep id vec size cs e two q le f refl;
        second = pass id vec n ctx (put_same id (passing n vec) s.stage) h refl;
        context = ap (λ p. p.1) (same_value k);
        thread =
            put_same id (reading (bv_shift n vec)) mid.stage ∙ ap (λ p. reading p.0) (same_value k);
      }

  -- A round that nothing interrupts either changes nothing, where the packet is not complete, or
  -- is the two steps of its thread that store the packet and pass it on.
  pub packet_round-InTwoSteps :
      (vec' : Bvec) (ctx' : Context)
      → s.stage id ≡ reading vec
      → 2 < vec.wptr
      → packet_round heap id (vec, s.ctx) ≡ some (vec', ctx')
      → ((vec ≡ vec') × (s.ctx ≡ ctx')) ⊎ InTwoSteps heap s id vec' ctx'
  unfolding packet_round relayed
  packet_round-InTwoSteps vec' ctx' e two r =
      let (size, q, t) =
        bound (read_size heap (take 2 (contents vec)))
          (λ size.
            if leb (bits mod64 size) vec.wptr
            then relayed heap id (bits mod64 size) vec s.ctx
            else some (vec, s.ctx))
          (vec', ctx') r in
      elim (Bool-cases (leb (bits mod64 size) vec.wptr)) [
        | inl f ↦ inr (
            relayed-InTwoSteps size vec' ctx' e two q (ground arith) (
              let z : relayed heap id (bits mod64 size) vec s.ctx ≡ some (vec', ctx') = rw f at t in
              z))
        | inr f ↦
            let z : some (vec, s.ctx) ≡ some (vec', ctx') = rw f at t in
            inl (ap (λ p. p.0) (same_value z), ap (λ p. p.1) (same_value z))
      ]
