-- ===== src/Server/Threads.antt =====
-- src/server.c: the main thread, which accepts connections, and one thread for each client, as steps
-- on the state that they share. A step is what a thread does under the mutexes that it holds, so
-- any order of the threads' steps is a sequence of them.
pub mod Hub
pub mod Bytes
pub mod Handlers
pub mod Accept
pub mod Link
pub mod Buffers
pub mod Moves
pub mod Apart
pub mod Members
pub mod Joins
pub mod Refines
pub mod Promises
pub mod Rounds
mod Runs
use sasd_protocols.Prelude.{
  ℕ, suc, ◌+◌, ◌^◌, ◌≤◌, ◌<◌, ◌≡◌, List, [], ◌∷◌, ◌++◌, length, take, Option, none, some, All, Bool,
  true, false, if◌then◌else◌, ℤ, pos, eqb_ℤ,
}
use sasd_protocols.Prelude.Word.{bits, mod64}
use sasd_protocols.Buffer.Types.{Allocator, done}
use sasd_protocols.Bvec.{Bvec, contents, bv_create, bv_append, bv_shift}
use sasd_protocols.Packets.Types.{disconnected}
use sasd_protocols.Framing.{read_size}
use sasd_protocols.Server.{
  Client, Context, server_init, accept_client, client_connected, announce, remember, each_client,
  server_broadcast, server_client_shutdown, client_flush,
}
use sasd_protocols.Server.Leave.{IsProgress}
use sasd_protocols.Server.Threads.Hub.{put}

-- Where a client's thread is: before its loop, in it with what is left in `vec`, between the two
-- calls that store and pass on a packet of so many bytes, between the two that a disconnection
-- makes, or not there.
pub data Stage : Type 0 where
  starting : Stage
  reading : Bvec → Stage
  passing : ℕ → Bvec → Stage
  leaving : Stage
  absent : Stage

-- The context, the threads by the number of their client, and for each client the bytes that went
-- out to it, those that were taken out of its send buffer, and whether a `send` to it has failed.
pub record System : Type 0 where
  pub ctx : Context
  pub stage : ℤ → Stage
  pub wire : ℤ → List ℕ
  pub taken : ℤ → List ℕ
  pub broken : ℤ → Bool

abbrev pub server_started : System
server_started = record {
  ctx = server_init;
  stage = λ id. absent;
  wire = λ id. [];
  taken = λ id. [];
  broken = λ id. false;
}

abbrev pub read_buffer_size : ℕ
read_buffer_size = 1024

pub data ServerStep (heap : Allocator) (s t : System) : Type 0 where
  -- the main thread: a connection is accepted, its client is registered, its thread is created. The
  -- numbers are not used up.
  accept :
      (n : ℕ) (ctx : Context)
      → s.ctx.client_count ≡ pos n
      → suc n < 2 ^ 31
      → accept_client heap s.ctx ≡ some ctx
      → t ≡ record {
        ctx = ctx;
        stage = put (pos n) starting s.stage;
        wire = put (pos n) [] s.wire;
        taken = put (pos n) [] s.taken;
        broken = put (pos n) false s.broken;
      }
      → ServerStep heap s t
  -- the beginning of `client_task`
  connect :
      (id : ℤ) (ctx : Context) (vec : Bvec)
      → s.stage id ≡ starting
      → bv_create heap read_buffer_size ≡ some vec
      → client_connected heap id s.ctx ≡ some ctx
      → t ≡ record s { ctx = ctx; stage = put id (reading vec) s.stage }
      → ServerStep heap s t
  -- `read` gives bytes: the loop over the packets was left
  read :
      (id : ℤ) (vec vec' : Bvec) (xs : List ℕ)
      → s.stage id ≡ reading vec
      → vec.wptr ≤ 2
      → length xs ≤ read_buffer_size
      → bv_append heap vec xs ≡ some vec'
      → t ≡ record s { stage = put id (reading vec') s.stage }
      → ServerStep heap s t
  -- a whole packet is there, and goes into the client's history
  keep :
      (id : ℤ) (vec : Bvec) (packet_size : ℤ) (cs : List Client)
      → s.stage id ≡ reading vec
      → 2 < vec.wptr
      → read_size heap (take 2 (contents vec)) ≡ some packet_size
      → bits mod64 packet_size ≤ vec.wptr
      → each_client (remember heap id (take (bits mod64 packet_size) (contents vec))) s.ctx.clients
        ≡ some cs
      → t ≡ record s {
        ctx = record s.ctx { clients = cs };
        stage = put id (passing (bits mod64 packet_size) vec) s.stage;
      }
      → ServerStep heap s t
  -- it goes into the send buffers of the others, and is moved out of `vec`
  pass :
      (id : ℤ) (vec : Bvec) (n : ℕ) (ctx : Context)
      → s.stage id ≡ passing n vec
      → server_broadcast heap id (take n (contents vec)) s.ctx ≡ some ctx
      → t ≡ record s { ctx = ctx; stage = put id (reading (bv_shift n vec)) s.stage }
      → ServerStep heap s t
  -- the notification pipe is readable: the send buffer goes out
  flush :
      (vec : Bvec) (results : List (Option ℕ)) (before after : List Client) (c : Client)
      → s.stage c.id ≡ reading vec
      → vec.wptr ≤ 2
      → s.ctx.clients ≡ before ++ (c ∷ after)
      → All IsProgress results
      → length (contents c.sbuffer) ≤ length results
      → t ≡ record s {
        ctx = record s.ctx { clients = before ++ ((client_flush results c).1 ∷ after) };
        wire = put c.id (s.wire c.id ++ (client_flush results c).0) s.wire;
        taken = put c.id (s.taken c.id ++ contents c.sbuffer) s.taken;
      }
      → ServerStep heap s t
  -- the same, and a call of `send` fails, or takes nothing
  flush_failed :
      (vec : Bvec) (results : List (Option ℕ)) (before after : List Client) (c : Client)
      → s.stage c.id ≡ reading vec
      → vec.wptr ≤ 2
      → s.ctx.clients ≡ before ++ (c ∷ after)
      → t ≡ record s {
        ctx = record s.ctx { clients = before ++ ((client_flush results c).1 ∷ after) };
        wire = put c.id (s.wire c.id ++ (client_flush results c).0) s.wire;
        taken = put c.id (s.taken c.id ++ contents c.sbuffer) s.taken;
        broken = put c.id true s.broken;
      }
      → ServerStep heap s t
  -- `read` gives 0: the others are told
  leave :
      (id : ℤ) (vec : Bvec) (ctx : Context)
      → s.stage id ≡ reading vec
      → vec.wptr ≤ 2
      → announce heap disconnected id s.ctx ≡ some ctx
      → t ≡ record s { ctx = ctx; stage = put id leaving s.stage }
      → ServerStep heap s t
  -- and the client is removed
  remove :
      (id : ℤ) (ctx : Context)
      → s.stage id ≡ leaving
      → server_client_shutdown id s.ctx ≡ (done, ctx)
      → t ≡ record s { ctx = ctx; stage = put id absent s.stage }
      → ServerStep heap s t

pub data Reachable (heap : Allocator) : System → Type 0 where
  here : Reachable heap server_started
  next : {s t : System} → Reachable heap s → ServerStep heap s t → Reachable heap t
