-- ===== src/Recvpool/Nodes.antt =====
-- src/recvpool.c: the queue of packets as it is stored, as nodes that lead to one another, with a
-- pointer to the first and one to the last. `none` stands for undefined behaviour: a use of the null
-- pointer or of an address that holds no node.
pub mod Chain
pub mod Push
pub mod Retrieve
pub mod Destroy
pub mod Whole
mod Runs
use sasd_protocols.Prelude.{
  ℕ, zero, suc, List, [], ◌∷◌, ◌++◌, Option, none, some, ◌>>=◌, ◌==◌, if◌then◌else◌, Bool, true,
  false,
}
use sasd_protocols.Buffer.Types.{Handle, live, freed, undefined, Allocator}
use sasd_protocols.Buffer.Push.{buffer_from_data}
use sasd_protocols.Buffer.Pop.{Result, got, failed, undefined}
use sasd_protocols.Packets.Types.{Packet}
use sasd_protocols.Packets.Deserialize.{Memory, packet_deserialize}
use sasd_protocols.Recvpool.{
  Queue, pqueue_push, Retrieved, nothing, packet, crashed, recvpool_retrieve,
}

-- `none` is the null pointer.
abbrev pub Ptr : Type 0
Ptr = Option ℕ

-- `pnode_t`
pub record Node : Type 0 where
  pub next : Ptr
  pub buffer : Handle

-- What is at each address.
abbrev pub Store : Type 0
Store = ℕ → Option Node

-- `packet_queue_t`, with the store.
pub record NodeQueue : Type 0 where
  pub head : Ptr
  pub tail : Ptr
  pub store : Store

unfoldable pub write : Store → ℕ → Option Node → Store
write store a n i = if i == a then n else store i

-- `pqueue_init`
pub node_init : Store → NodeQueue
node_init store = record { head = none; tail = none; store = store }

-- `q->tail->next = node; q->tail = node;`
pub link_behind : ℕ → Ptr → NodeQueue → Option NodeQueue
link_behind a none q = none
link_behind a (some t) q = q.store t >>= λ n.
    some (record q { tail = some a; store = write q.store t (some (record n { next = some a })) })

-- The test of `q->head`.
pub link : ℕ → Ptr → NodeQueue → Option NodeQueue
link a none q = some (record q { head = some a; tail = some a })
link a (some h) q = link_behind a q.tail q

-- What `malloc` gives for a node, by what is in use.
abbrev pub Malloc : Type 0
Malloc = Store → Ptr

module _ (heap : Allocator) (malloc : Malloc) where
  pub new_node : List ℕ → Node
  new_node xs = record { next = none; buffer = buffer_from_data heap xs }

  -- `pqueue_push`
  pub node_push : NodeQueue → List ℕ → Option NodeQueue
  node_push q xs = malloc q.store >>= λ a.
      link a q.head (record q { store = write q.store a (some (new_node xs)) })

-- `q->head = q->head->next`, and the test of the new head.
pub advance : Ptr → NodeQueue → NodeQueue
advance none q = record q { head = none; tail = none }
advance (some p) q = record q { head = some p }

-- `pqueue_pop`
pub pop_at : Ptr → NodeQueue → Option (Ptr × NodeQueue)
pop_at none q = some (none, q)
pop_at (some h) q = q.store h >>= λ n. some (some h, advance n.next q)

pub node_pop : NodeQueue → Option (Ptr × NodeQueue)
node_pop q = pop_at q.head q

-- What `recvpool_retrieve` gives: -1 if there is no node or its packet cannot be read, else 0 and the
-- packet.
pub data Found : Type 0 where
  empty unreadable : Found
  read : Packet → Found

-- `buffer_destroy(node->data); free(node);`
pub release : ℕ → NodeQueue → NodeQueue
release a q = record q { store = write q.store a none }

-- The test of what `packet_deserialize` gives: if it fails, the node is not freed, and nothing leads
-- to it any more.
pub read_node : ℕ → Result Packet → NodeQueue → Option (Found × NodeQueue)
read_node a (got p rest) q = some (read p, release a q)
read_node a failed q = some (unreadable, q)
read_node a undefined q = none

pub deserialized : Memory → Bool → Handle → Result Packet
deserialized memory parse (live b) = packet_deserialize memory parse b
deserialized memory parse freed = undefined
deserialized memory parse undefined = undefined

pub use_node : Memory → Bool → Ptr × NodeQueue → Option (Found × NodeQueue)
use_node memory parse (none, q) = some (empty, q)
use_node memory parse (some a, q) =
    q.store a >>= λ n. read_node a (deserialized memory parse n.buffer) q

-- `recvpool_retrieve`
pub node_retrieve : Memory → Bool → NodeQueue → Option (Found × NodeQueue)
node_retrieve memory parse q = node_pop q >>= λ p. use_node memory parse p

-- `_pqueue_destroy_nodes`, to a depth: the nodes behind are freed first.
pub destroy_nodes : ℕ → Ptr → Store → Option Store
destroy_nodes depth none store = some store
destroy_nodes zero (some a) store = none
destroy_nodes (suc depth) (some a) store =
    store a >>= λ n. destroy_nodes depth n.next store >>= λ s. s a >>= λ m. some (write s a none)

-- `pqueue_clean`
pub node_clean : ℕ → NodeQueue → Option Store
node_clean depth q = destroy_nodes depth q.head q.store

-- What the threads do with a queue: the receiving one pushes, the game retrieves.
pub data Call : Type 0 where
  push : List ℕ → Call
  retrieve : Memory → Bool → Call

-- The calls in the order in which they get the mutex, with what the retrievals find.
pub node_calls : Allocator → Malloc → List Call → NodeQueue → Option (List Found × NodeQueue)
node_calls heap malloc [] q = some ([], q)
node_calls heap malloc (push xs ∷ cs) q =
    node_push heap malloc q xs >>= λ q'. node_calls heap malloc cs q'
node_calls heap malloc (retrieve memory parse ∷ cs) q = node_retrieve memory parse q >>= λ r.
    node_calls heap malloc cs r.1 >>= λ s. some (r.0 ∷ s.0, s.1)

-- The calls on a queue that is a list, with the packets that are retrieved; `none` stands for -1.
pub list_next :
    Retrieved
    → (Queue → Option (List (Option Packet) × Queue))
    → Option (List (Option Packet) × Queue)
list_next (nothing q) rest = rest q >>= λ s. some (none ∷ s.0, s.1)
list_next (packet p q) rest = rest q >>= λ s. some (some p ∷ s.0, s.1)
list_next crashed rest = none

pub list_calls : Allocator → List Call → Queue → Option (List (Option Packet) × Queue)
list_calls heap [] q = some ([], q)
list_calls heap (push xs ∷ cs) q = pqueue_push heap q xs >>= λ q'. list_calls heap cs q'
list_calls heap (retrieve memory parse ∷ cs) q =
    list_next (recvpool_retrieve memory parse q) (list_calls heap cs)
