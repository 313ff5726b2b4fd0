-- ===== src/Server.antt =====
-- src/server.c: the clients, the packets that are passed on between them, and the handlers of a
-- client's thread. A handler runs under the context's mutex and the buffers' mutexes, so it is a
-- step; `none` and `fault` stand for undefined behaviour.
pub mod Leave
pub mod Relay
pub mod Round
mod Runs
pub mod Threads
use sasd_protocols.Prelude.{
  ℕ, zero, suc, ◌+◌, List, [], ◌∷◌, ◌++◌, take, drop, length, Option, none, some, ◌>>=◌, leb, ltb,
  if◌then◌else◌, Bool, true, false, ℤ, pos, ◌+ℤ◌, eqb_ℤ, not,
}
use sasd_protocols.Prelude.Word.{bits, wrap, mod16, mod32, mod64}
use sasd_protocols.Buffer.Types.{Handle, Allocator, Code, done, failed}
use sasd_protocols.Buffer.Push.{buffer_create, pushed}
use sasd_protocols.Bvec.{Bvec, contents, bv_create, bv_append, bv_reset, bv_shift}
use sasd_protocols.Packets.Types.{Payload, handshake, connected, disconnected}
use sasd_protocols.Packets.Serialize.{packet_serialize, push_int16', push_int32'}
use sasd_protocols.Framing.{Run, ended, running, fault, read_size}

abbrev pub hbuffer_size : ℕ
hbuffer_size = 2048

abbrev pub sbuffer_size : ℕ
sbuffer_size = 2048

-- `struct __client_node`; `notified` is the number of bytes in the notification pipe.
pub record Client : Type 0 where
  pub id : ℤ
  pub hbuffer : Bvec
  pub sbuffer : Bvec
  pub notified : ℕ

-- `struct server_context`, with the list that begins at `clients`.
pub record Context : Type 0 where
  pub client_count : ℤ
  pub clients : List Client

pub server_init : Context
server_init = record { client_count = pos 0; clients = [] }

pub client_notify : Client → Client
client_notify c = record c { notified = c.notified + 1 }

-- The `for` over the list that calls `f` on each client.
pub each_client : (Client → Option Client) → List Client → Option (List Client)
each_client f [] = some []
each_client f (c ∷ cs) =
    let rest = each_client f cs in f c >>= λ c'. rest >>= λ cs'. some (c' ∷ cs')

-- The list without the first node that has the id, if there is one.
pub remove_client : ℤ → List Client → Option (List Client)
remove_client id [] = none
remove_client id (c ∷ cs) =
    let rest = remove_client id cs >>= λ cs'. some (c ∷ cs') in
    if eqb_ℤ c.id id then some cs else rest

-- What `server_client_shutdown` returns, given what is left of the list.
pub shut_down : Context → Option (List Client) → Code × Context
shut_down ctx none = (failed, ctx)
shut_down ctx (some cs) = (done, record ctx { clients = cs })

pub server_client_shutdown : ℤ → Context → Code × Context
server_client_shutdown id ctx = shut_down ctx (remove_client id ctx.clients)

module _ (heap : Allocator) where
  -- `client_create`, where the mutexes and the pipe are created. The id is set later.
  pub client_create : Option Client
  client_create = bv_create heap hbuffer_size >>= λ h. bv_create heap sbuffer_size >>= λ s.
      some (record { id = pos 0; hbuffer = h; sbuffer = s; notified = 0 })

  -- The bytes of `prepend_writer`.
  pub prepended : ℤ → ℤ → List ℕ
  prepended packet_size sender_id =
      pushed
        (push_int32' heap (push_int16' heap (buffer_create heap (2 + 4)) packet_size) sender_id)

  -- `[size | payload] -> [size | sender_id | payload]`
  pub bv_append_with_sender_id : Bvec → ℤ → List ℕ → Option Bvec
  bv_append_with_sender_id vec sender_id xs = read_size heap (take 2 xs) >>= λ size.
      let packet_size = wrap mod16 (size +ℤ pos 4) in
      bv_append heap vec (prepended packet_size sender_id) >>= λ w. bv_append heap w (drop 2 xs)

  -- The loop of `server_client_register`: what the new client is sent about those that are there.
  pub introduce : List Client → Bvec → Option Bvec
  introduce [] sbuffer = some sbuffer
  introduce (c ∷ cs) sbuffer = packet_serialize heap connected >>= λ conn_packet.
      bv_append_with_sender_id sbuffer c.id (pushed conn_packet) >>= λ s.
      bv_append heap s (contents c.hbuffer) >>= λ s'. introduce cs s'

  pub server_client_register : Client → Context → Option Context
  server_client_register new_client ctx = introduce ctx.clients new_client.sbuffer >>= λ s.
      some (record ctx { clients = record new_client { sbuffer = s } ∷ ctx.clients })

  -- What a broadcast does to one client.
  pub pass_on : ℤ → List ℕ → Client → Option Client
  pass_on sender_id xs c =
      let sent = bv_append_with_sender_id c.sbuffer sender_id xs >>= λ s.
      some (client_notify (record c { sbuffer = s })) in
      if eqb_ℤ c.id sender_id then some c else sent

  pub server_broadcast : ℤ → List ℕ → Context → Option Context
  server_broadcast sender_id xs ctx =
      each_client (pass_on sender_id xs) ctx.clients >>= λ cs. some (record ctx { clients = cs })

  -- A packet without a payload, to all others.
  pub announce : Payload → ℤ → Context → Option Context
  announce p id ctx = packet_serialize heap p >>= λ h. server_broadcast id (pushed h) ctx

  -- The beginning of `client_task`.
  pub client_connected : ℤ → Context → Option Context
  client_connected id ctx = announce connected id ctx

  -- `read` gives 0: the others are told, and the client is removed.
  pub client_disconnected : ℤ → Context → Option Context
  client_disconnected id ctx =
      announce disconnected id ctx >>= λ ctx'. some (server_client_shutdown id ctx').1

  -- The history of the client itself, whose node is one of the list.
  pub remember : ℤ → List ℕ → Client → Option Client
  remember id xs c =
      let remembered =
        bv_append_with_sender_id c.hbuffer id xs >>= λ h. some (record c { hbuffer = h }) in
      if eqb_ℤ c.id id then remembered else some c

  -- One round of the loop over the packets that were read: the client's `vec` and the context.
  -- The comparison is between `size_t`s. `prepend_writer` of the loop is not used.
  pub packet_round : ℤ → Bvec × Context → Option (Bvec × Context)
  packet_round id (vec, ctx) = read_size heap (take 2 (contents vec)) >>= λ packet_size.
      let n = bits mod64 packet_size in
      let relayed = each_client (remember id (take n (contents vec))) ctx.clients >>= λ cs.
      server_broadcast id (take n (contents vec)) (record ctx { clients = cs }) >>= λ ctx'.
      some (bv_shift n vec, ctx') in
      if leb n vec.wptr then relayed else some (vec, ctx)

  -- `while (bv_size(vec) > 2)`, for so many rounds
  pub packet_rounds : ℕ → ℤ → Bvec × Context → Run (Bvec × Context)
  packet_rounds zero id s = running s
  packet_rounds (suc fuel) id s =
      if ltb 2 s.0.wptr
      then elim (packet_round id s) [ none ↦ fault | some t ↦ packet_rounds fuel id t ]
      else ended s

  -- `read` gives bytes.
  pub client_read : ℕ → ℤ → List ℕ → Bvec × Context → Run (Bvec × Context)
  client_read fuel id xs (vec, ctx) = elim (bv_append heap vec xs) [
    | none ↦ fault
    | some w ↦ packet_rounds fuel id (w, ctx)
  ]

  -- `server_start`, for a connection that was accepted, up to the start of the thread.
  pub accept_client : Context → Option Context
  accept_client ctx = client_create >>= λ c.
      packet_serialize heap (handshake ctx.client_count) >>= λ hdata.
      bv_append heap c.sbuffer (pushed hdata) >>= λ s.
      server_client_register (client_notify (record c { id = ctx.client_count; sbuffer = s }))
        (record ctx { client_count = wrap mod32 (ctx.client_count +ℤ pos 1) })

-- The loop that sends the bytes of `sbuffer`, on the results of `send` in order: a number of bytes
-- that were taken, or `none` for an error. It gives the bytes that went out.
pub send_loop : List (Option ℕ) → List ℕ → List ℕ
send_loop [] xs = []
send_loop (none ∷ rs) xs = []
send_loop (some n ∷ rs) [] = []
send_loop (some n ∷ rs) (x ∷ xs) = take n (x ∷ xs) ++ send_loop rs (drop n (x ∷ xs))

-- The pipe is readable: what was notified is discarded, what `sbuffer` holds is sent, and the
-- buffer is emptied, also after an error.
pub client_flush : List (Option ℕ) → Client → List ℕ × Client
client_flush rs c =
    (send_loop rs (contents c.sbuffer), record c { sbuffer = bv_reset c.sbuffer; notified = 0 })
