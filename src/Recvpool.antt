-- ===== src/Recvpool.antt =====
-- src/recvpool.c: a thread that cuts what it receives into packets, and the queue that it puts
-- them into. `none` and `fault` stand for undefined behaviour.
pub mod Delivery
pub mod Nodes
mod Runs
use sasd_protocols.Prelude.{
  ℕ, zero, suc, List, [], ◌∷◌, ◌++◌, take, Option, none, some, ◌>>=◌, leb, ltb, if◌then◌else◌, Bool,
  true, false, ℤ,
}
use sasd_protocols.Prelude.Word.{bits, mod64}
use sasd_protocols.Buffer.Types.{Handle, live, freed, undefined, Allocator}
use sasd_protocols.Buffer.Push.{buffer_from_data}
use sasd_protocols.Buffer.Pop.{Result, got, failed, undefined}
use sasd_protocols.Bvec.{Bvec, contents, bv_append, bv_shift}
use sasd_protocols.Packets.Types.{Packet}
use sasd_protocols.Packets.Deserialize.{Memory, packet_deserialize}
use sasd_protocols.Framing.{Run, ended, running, fault, read_size}

-- The nodes from `head` to `tail`, each as its `data`.
abbrev pub Queue : Type 0
Queue = List Handle

abbrev pub pqueue_init : Queue
pqueue_init = []

-- `sizeof(pnode_t)`
abbrev pub node_size : ℕ
node_size = 16

-- What the thread changes: its accumulator and the queue.
pub record Pool : Type 0 where
  pub vec : Bvec
  pub pqueue : Queue

-- What a call of `recv` gives.
pub data Recvd : Type 0 where
  error : Recvd
  disconnected : Recvd
  bytes : List ℕ → Recvd

module _ (heap : Allocator) where
  -- The node goes behind the last one.
  pub pqueue_push : Queue → List ℕ → Option Queue
  pqueue_push q xs =
      if heap.malloc node_size then some (q ++ (buffer_from_data heap xs ∷ [])) else none

  -- One round of the inner loop. The comparison is between `size_t`s, so a negative size counts
  -- as a huge one.
  pub frame : Pool → Option Pool
  frame pool = read_size heap (contents pool.vec) >>= λ packet_size.
      let n = bits mod64 packet_size in
      let pushed_one = pqueue_push pool.pqueue (take n (contents pool.vec)) >>= λ q.
      some (record { vec = bv_shift n pool.vec; pqueue = q }) in
      if leb n pool.vec.wptr then pushed_one else some pool

  -- `while (bv_size(vec) > 2)`, for so many rounds
  pub frames : ℕ → Pool → Run Pool
  frames zero pool = running pool
  frames (suc fuel) pool =
      if ltb 2 pool.vec.wptr
      then elim (frame pool) [ none ↦ fault | some next ↦ frames fuel next ]
      else ended pool

  -- The rest of the outer loop's body, for bytes that were received.
  pub appended : ℕ → Pool → Option Bvec → Run Pool
  appended fuel pool none = fault
  appended fuel pool (some vec) = frames fuel (record pool { vec = vec })

  pub received : ℕ → Pool → List ℕ → Run Pool
  received fuel pool xs = appended fuel pool (bv_append heap pool.vec xs)

  -- `thread`, on the results of `recv` in order; with the results used up, the thread waits.
  pub thread : ℕ → List Recvd → Pool → Run Pool
  thread fuel [] pool = running pool
  thread fuel (error ∷ rs) pool = thread fuel rs pool
  thread fuel (disconnected ∷ rs) pool = ended pool
  thread fuel (bytes xs ∷ rs) pool = elim (received fuel pool xs) [
    | ended next ↦ thread fuel rs next
    | running next ↦ running next
    | fault ↦ fault
  ]

-- `pqueue_pop`; `none` is the null pointer.
pub pqueue_pop : Queue → Option (Handle × Queue)
pqueue_pop [] = none
pqueue_pop (node ∷ q) = some (node, q)

-- What `recvpool_retrieve` does: -1, 0 with the packet, or undefined behaviour; and the queue.
pub data Retrieved : Type 0 where
  nothing : Queue → Retrieved
  packet : Packet → Queue → Retrieved
  crashed : Retrieved

pub retrieved : Result Packet → Queue → Retrieved
retrieved (got p rest) q = packet p q
retrieved failed q = nothing q
retrieved undefined q = crashed

pub retrieve_node : Memory → Bool → Handle → Queue → Retrieved
retrieve_node memory parse (live b) q = retrieved (packet_deserialize memory parse b) q
retrieve_node memory parse freed q = crashed
retrieve_node memory parse undefined q = crashed

pub recvpool_retrieve : Memory → Bool → Queue → Retrieved
recvpool_retrieve memory parse queue = elim (pqueue_pop queue) [
  | none ↦ nothing queue
  | some (node, q) ↦ retrieve_node memory parse node q
]
