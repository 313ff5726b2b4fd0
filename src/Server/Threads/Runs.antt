-- ===== src/Server/Threads/Runs.antt =====
-- A run of the threads of src/server.c with two clients.
use mathlib.Core.Path.{subst}
use sasd_protocols.Prelude.{
  ℕ, ◌<◌, ◌≤◌, ◌^◌, ◌≡◌, ◌≢◌, refl, sym, ◌∙◌, inl, inr, List, [], ◌∷◌, ◌++◌, All, take, get_or,
  Option, none, some, ltb, Bool, true, false, if◌then◌else◌, pos, ◌+ℤ◌, arith,
}
use sasd_protocols.Buffer.Types.{Allocator, Realloc, done}
use sasd_protocols.Bvec.Success.{IsFinite}
use sasd_protocols.Server.Leave.{TakenOut}
use sasd_protocols.Server.{
  server_client_shutdown, Client, Context, server_init, accept_client, client_create,
  server_client_register, introduce, client_notify, client_connected, announce, server_broadcast,
  each_client, pass_on, remember, bv_append_with_sender_id, prepended,
}
use sasd_protocols.Framing.{read_size, read_from, result_of}
use sasd_protocols.Buffer.Pop.{pop_int16, pop_any, int16_of, capacity_chkr}
use sasd_protocols.Bvec.{Bvec, bv_create, bv_write, bv_append, bv_shift, contents}
use sasd_protocols.Buffer.Push.{
  capacity_chkw, copy_in, push_live, push_any, buffer_create, buffer_from_data, push_char,
  push_int16, push_int32, pushed,
}
use sasd_protocols.Packets.Serialize.{
  push_char', push_int16', push_int32', header_serialize, handshake_serialize, connected_serialize,
  packet_serialize,
}
use sasd_protocols.Prelude.Word.{mod64, signed, bits, bytes2, bytes4, word2}
use sasd_protocols.Server.Threads.{
  System, server_started, absent, starting, reading, passing, Reachable, accept, connect, read,
  keep, pass, here, next,
}
use sasd_protocols.Server.Threads.Hub.{put}
use sasd_protocols.Server.Threads.Refines.{Refines, Reachable-Refines}
use sasd_protocols.Server.Threads.Promises.{
  Among, HasBeenSent, Reachable-shutdown, Reachable-HasBeenSent,
}

abbrev large : Allocator
large = record {
  malloc = λ n. true;
  realloc = λ n. if ltb n (2 ^ 62) then Realloc.same else Realloc.null;
}

large-IsFinite : IsFinite large
large-IsFinite n h = ground arith

abbrev context : Option Context → Context
context none = server_init
context (some c) = c

abbrev has : {A : Type 0} → Option A → Bool
has none = false
has (some a) = true

abbrev clients_of : Option (List Client) → List Client
clients_of none = []
clients_of (some cs) = cs

abbrev vector : Option Bvec → Bvec
vector none = record { wptr = 0; size = 0; bytes = []; allocated = 0 }
vector (some v) = v

-- A packet that client 0 sends.
abbrev hello : List ℕ
hello = 0 ∷ 4 ∷ 7 ∷ 65 ∷ []

-- Client 0 is accepted, and its thread starts; client 1 is accepted. A packet of client 0 is read
-- and stored; then client 2 is accepted, and then the packet is passed on.
abbrev ctx1 : Context
ctx1 = context (accept_client large server_init)

abbrev ctx2 : Context
ctx2 = context (client_connected large (pos 0) ctx1)

abbrev ctx3 : Context
ctx3 = context (accept_client large ctx2)

abbrev empty_vec : Bvec
empty_vec = vector (bv_create large 1024)

abbrev vec : Bvec
vec = vector (bv_append large empty_vec hello)

-- What `vec` holds of the packet, by the size in front of it.
abbrev size : ℕ
size = bits mod64 (pos 4)

abbrev packet : List ℕ
packet = take size (contents vec)

abbrev stored : List Client
stored = clients_of (each_client (remember large (pos 0) packet) ctx3.clients)

abbrev ctx4 : Context
ctx4 = record ctx3 { clients = stored }

abbrev ctx5 : Context
ctx5 = context (accept_client large ctx4)

abbrev ctx6 : Context
ctx6 = context (server_broadcast large (pos 0) packet ctx5)

-- The clients 2, 1 and 0 at the end.
abbrev client_at : ℕ → Client
client_at i =
    get_or ctx6.clients i
      (record { id = pos 9; hbuffer = empty_vec; sbuffer = empty_vec; notified = 0 })

-- The calls of the run succeed. At its end, client 2 has the handshake, a notice for each of the
-- others, and the packet twice: from the history, and from the broadcast.
calls_succeed :
    (accept_client large server_init ≡ some ctx1)
    × (client_connected large (pos 0) ctx1 ≡ some ctx2)
    × (accept_client large ctx2 ≡ some ctx3)
    × (bv_create large 1024 ≡ some empty_vec)
    × (bv_append large empty_vec hello ≡ some vec)
    × (each_client (remember large (pos 0) packet) ctx3.clients ≡ some stored)
    × (accept_client large ctx4 ≡ some ctx5)
    × (server_broadcast large (pos 0) packet ctx5 ≡ some ctx6)
    × (read_size large (take 2 (contents vec)) ≡ some (pos 4))
    × (server_init.client_count ≡ pos 0)
    × (ctx2.client_count ≡ pos 1)
    × (ctx4.client_count ≡ pos 2)
    × (empty_vec.wptr ≤ 2)
    × (2 < vec.wptr)
    × (size ≤ vec.wptr)
    × (ctx6.clients ≡ client_at 0 ∷ client_at 1 ∷ client_at 2 ∷ [])
    × ((client_at 2).id ≡ pos 0)
    × ((client_at 0).id ≡ pos 2)
    × (contents (client_at 0).sbuffer
        ≡ (0 ∷ 7 ∷ 104 ∷ 0 ∷ 0 ∷ 0 ∷ 2 ∷ [])
          ++ (0 ∷ 7 ∷ 0 ∷ 0 ∷ 0 ∷ 1 ∷ 99 ∷ [])
          ++ (0 ∷ 7 ∷ 0 ∷ 0 ∷ 0 ∷ 0 ∷ 99 ∷ [])
          ++ (0 ∷ 8 ∷ 0 ∷ 0 ∷ 0 ∷ 0 ∷ 7 ∷ 65 ∷ [])
          ++ (0 ∷ 8 ∷ 0 ∷ 0 ∷ 0 ∷ 0 ∷ 7 ∷ 65 ∷ []))
unfolding accept_client client_create server_init bv_create bv_write bv_append capacity_chkw copy_in
    push_live push_any buffer_create buffer_from_data push_char push_int16 push_int32 pushed
    push_char' push_int16' push_int32' header_serialize handshake_serialize connected_serialize
    packet_serialize server_client_register introduce client_notify signed bits ◌+ℤ◌ bytes2 bytes4
    contents client_connected announce server_broadcast each_client pass_on remember
    bv_append_with_sender_id prepended read_size read_from result_of pop_int16 pop_any int16_of
    capacity_chkr word2 sasd_protocols.Buffer.Pop.◌>>=◌
calls_succeed = (
  refl,
  refl,
  refl,
  refl,
  refl,
  refl,
  refl,
  refl,
  refl,
  refl,
  refl,
  refl,
  omega arith,
  omega arith,
  omega arith,
  refl,
  refl,
  refl,
  refl,
)

abbrev sys1 : System
sys1 = record {
  ctx = ctx1;
  stage = put (pos 0) starting (server_started).stage;
  wire = put (pos 0) [] (server_started).wire;
  taken = put (pos 0) [] (server_started).taken;
  broken = put (pos 0) false (server_started).broken;
}

abbrev sys2 : System
sys2 = record sys1 { ctx = ctx2; stage = put (pos 0) (reading empty_vec) sys1.stage }

abbrev sys3 : System
sys3 = record {
  ctx = ctx3;
  stage = put (pos 1) starting sys2.stage;
  wire = put (pos 1) [] sys2.wire;
  taken = put (pos 1) [] sys2.taken;
  broken = put (pos 1) false sys2.broken;
}

abbrev sys4 : System
sys4 = record sys3 { stage = put (pos 0) (reading vec) sys3.stage }

abbrev sys5 : System
sys5 = record sys4 { ctx = ctx4; stage = put (pos 0) (passing size vec) sys4.stage }

abbrev sys6 : System
sys6 = record {
  ctx = ctx5;
  stage = put (pos 2) starting sys5.stage;
  wire = put (pos 2) [] sys5.wire;
  taken = put (pos 2) [] sys5.taken;
  broken = put (pos 2) false sys5.broken;
}

abbrev sys7 : System
sys7 = record sys6 { ctx = ctx6; stage = put (pos 0) (reading (bv_shift size vec)) sys6.stage }

sys7-Reachable : Reachable large sys7
unfolding put
sys7-Reachable =
    let (a, b, c, d, e, f, g, h, i, n0, n1, n2, l, m, n, _, _, _, _) = calls_succeed in
    let r1 : Reachable large sys1 = next here (accept 0 ctx1 n0 (omega arith) a refl) in
    let r2 : Reachable large sys2 = next r1 (connect (pos 0) ctx2 empty_vec refl d b refl) in
    let r3 : Reachable large sys3 = next r2 (accept 1 ctx3 n1 (omega arith) c refl) in
    let r4 : Reachable large sys4 =
      next r3 (read (pos 0) empty_vec vec hello refl l (omega arith) e refl) in
    let r5 : Reachable large sys5 = next r4 (keep (pos 0) vec (pos 4) stored refl m i n f refl) in
    let r6 : Reachable large sys6 = next r5 (accept 2 ctx5 n2 (omega arith) g refl) in
    next r6 (pass (pos 0) vec size ctx6 refl h refl)

apart : (client_at 2).id ≢ (client_at 0).id
apart e =
    let (a, b, c, d, e', f, g, h, i, n0, n1, n2, l, m, n, cs, from_id, to_id, bytes) =
      calls_succeed in
    let q : pos 0 ≡ pos 2 = sym from_id ∙ e ∙ to_id in ground arith

among : (i : Client) → Among i (client_at 0 ∷ client_at 1 ∷ client_at 2 ∷ []) → Among i ctx6.clients
among i w =
    let (a, b, c, d, e, f, g, h, i', n0, n1, n2, l, m, n, cs, from_id, to_id, bytes) =
      calls_succeed in
    subst (Among i) (sym cs) w

Reachable-Refines_example : Refines large sys7
Reachable-Refines_example = Reachable-Refines large large-IsFinite sys7-Reachable

running : sys7.stage (pos 0) ≢ absent
unfolding put
running e = ground arith

Reachable-shutdown_example :
    (cs : List Client) × (server_client_shutdown (pos 0) ctx6
      ≡ (done, record ctx6 { clients = cs }))
    × TakenOut (pos 0) ctx6.clients cs
    × All (λ c. c.id ≢ pos 0) cs
Reachable-shutdown_example = Reachable-shutdown large large-IsFinite (pos 0) sys7-Reachable running

Reachable-HasBeenSent_example : HasBeenSent large sys7 (client_at 2) (client_at 0)
Reachable-HasBeenSent_example =
    Reachable-HasBeenSent large large-IsFinite (client_at 2) (client_at 0) sys7-Reachable
      (among (client_at 2) (inr (inr (inl refl)))) (among (client_at 0) (inl refl)) apart
