-- ===== src/Recvpool/Nodes/Whole.antt =====
-- The stored queue of src/recvpool.c is the queue as a list, and leaves no node behind but those
-- whose packet could not be read.
use sasd_protocols.Prelude.{
  ℕ, suc, ◌+◌, ◌≤◌, ◌<◌, ◌≡◌, ◌≢◌, ◌⊎◌, inl, inr, refl, sym, ap, ◌∙◌, List, [], ◌∷◌, ◌++◌, map,
  length, length-append, length-map, Bool, Option, none, some, ◌>>=◌, true, arith, Returns,
}
use mathlib.Core.List.{map-append}
use mathlib.Core.Path.{subst}
use sasd_protocols.Buffer.Types.{Handle, live, freed, undefined, Allocator}
use sasd_protocols.Buffer.Push.{buffer_from_data}
use sasd_protocols.Buffer.Pop.{Result, got, failed, undefined}
use sasd_protocols.Packets.Types.{Packet}
use sasd_protocols.Packets.Deserialize.{Memory}
use sasd_protocols.Recvpool.{
  Queue, pqueue_init, pqueue_push, pqueue_pop, node_size, retrieve_node, retrieved,
  recvpool_retrieve,
}
use sasd_protocols.Recvpool.Nodes.{
  Store, NodeQueue, Malloc, Found, empty, unreadable, read, Call, push, retrieve, node_init,
  node_retrieve, deserialized, destroy_nodes, list_next, list_calls, node_clean, node_calls,
}
use sasd_protocols.Recvpool.Nodes.Push.{push-IsQueue}
use sasd_protocols.Recvpool.Nodes.Retrieve.{Taken, retrieve-Taken, retrieve-empty}
use sasd_protocols.Recvpool.Nodes.Destroy.{destroy_nodes-freed}
use sasd_protocols.Recvpool.Nodes.Chain.{Cells, Distinct, Holds, IsQueue, Holds-or, Holds-append}

-- There is memory for so many nodes: with fewer in use, `malloc` gives an address at which nothing
-- is stored.
abbrev pub HasMemory : ℕ → Malloc → Type 0
HasMemory room malloc =
    (s : Store) (cells : Cells)
    → ((a : ℕ) → (s a ≡ none) ⊎ Holds a cells)
    → length cells < room
    → (a : ℕ) × (malloc s ≡ some a) × (s a ≡ none)

abbrev pub nothing_stored : Store
nothing_stored = λ a. none

-- The packet that a retrieval gives, if it does not give -1.
abbrev pub packet_of : Found → Option Packet
packet_of empty = none
packet_of unreadable = none
packet_of (read p) = some p

-- How many packets could not be read.
abbrev pub unread : List Found → ℕ
unread [] = 0
unread (empty ∷ fs) = unread fs
unread (unreadable ∷ fs) = suc (unread fs)
unread (read p ∷ fs) = unread fs

-- So many nodes are stored.
pub record Stored (s : Store) (n : ℕ) : Type 0 where
  pub nodes : Cells
  pub number : length nodes ≡ n
  pub apart : Distinct nodes
  pub only : (a : ℕ) → (s a ≡ none) ⊎ Holds a nodes
  pub kept : (a : ℕ) → Holds a nodes → s a ≢ none

-- The buffers of nodes.
abbrev buffers : Cells → Queue
buffers cells = map (λ c. c.1) cells

retrieve_list :
    (memory : Memory) (parse : Bool) (h : Handle) (q : Queue)
    → recvpool_retrieve memory parse (h ∷ q) ≡ retrieved (deserialized memory parse h) q
unfolding recvpool_retrieve pqueue_pop retrieve_node retrieved deserialized
retrieve_list memory parse (live b) q = refl
retrieve_list memory parse freed q = refl
retrieve_list memory parse undefined q = refl

module _ (heap : Allocator) (malloc : Malloc) (memory : ℕ) (gives : HasMemory memory malloc)
    (room : heap.malloc node_size ≡ true) where
  list_push :
      (l : Queue) (xs : List ℕ)
      → pqueue_push heap l xs ≡ some (l ++ (buffer_from_data heap xs ∷ []))
  unfolding pqueue_push
  list_push l xs = rw room refl

  -- The calls are undefined on both queues, or they find the same and leave the same queue, and a
  -- node is lost for each packet that could not be read.
  abbrev Agrees : List Call → NodeQueue → Queue → ℕ → Type 0
  Agrees cs q l lost =
      ((node_calls heap malloc cs q ≡ none) × (list_calls heap cs l ≡ none))
      ⊎ Returns
          (λ r.
            (rest : Cells) × (gone : Cells) × IsQueue r.1 rest gone
            × (length gone ≡ lost + unread r.0)
            × (list_calls heap cs l ≡ some (map packet_of r.0, buffers rest)))
          (node_calls heap malloc cs q)

  -- A retrieval in front of calls.
  in_front :
      (m : Memory) (parse : Bool) (cs : List Call) (q q' : NodeQueue) (l l' : Queue) (f : Found)
      (lost lost' : ℕ)
      → node_retrieve m parse q ≡ some (f, q')
      → list_next (recvpool_retrieve m parse l) (list_calls heap cs)
        ≡ (list_calls heap cs l' >>= λ s. some (packet_of f ∷ s.0, s.1))
      → ((fs : List Found) → lost' + unread fs ≡ lost + unread (f ∷ fs))
      → Agrees cs q' l' lost'
      → Agrees (retrieve m parse ∷ cs) q l lost
  unfolding node_calls list_calls
  in_front m parse cs q q' l l' f lost lost' e g count (inl (x, y)) = inl (
    ap (λ o. o >>= λ r. node_calls heap malloc cs r.1 >>= λ s. some (r.0 ∷ s.0, s.1)) e
        ∙ ap (λ o. o >>= λ s. some (f ∷ s.0, s.1)) x,
    g ∙ ap (λ o. o >>= λ s. some (packet_of f ∷ s.0, s.1)) y,
  )
  in_front m parse cs q q' l l' f lost lost' e g count (inr (r, x, (rest, gone, i, n, y))) = inr (
    (f ∷ r.0, r.1),
    ap (λ o. o >>= λ r. node_calls heap malloc cs r.1 >>= λ s. some (r.0 ∷ s.0, s.1)) e
        ∙ ap (λ o. o >>= λ s. some (f ∷ s.0, s.1)) x,
    (rest, gone, i, n ∙ count r.0, g ∙ ap (λ o. o >>= λ s. some (packet_of f ∷ s.0, s.1)) y),
  )

  -- A retrieval of a node, by what comes of reading it.
  taken :
      (m : Memory) (parse : Bool) (cs : List Call) (q : NodeQueue) (a : ℕ) (h : Handle)
      (cells lost : Cells) (res : Result Packet)
      → deserialized m parse h ≡ res
      → Taken res a h cells lost (node_retrieve m parse q)
      → ((q' : NodeQueue) (gone : Cells)
          → IsQueue q' cells gone
          → length gone ≤ length lost + 1
          → Agrees cs q' (buffers cells) (length gone))
      → Agrees (retrieve m parse ∷ cs) q (h ∷ buffers cells) (length lost)
  unfolding node_calls list_calls list_next retrieved
  taken m parse cs q a h cells lost undefined d t k = inl (
    ap (λ o. o >>= λ r. node_calls heap malloc cs r.1 >>= λ s. some (r.0 ∷ s.0, s.1)) t,
    ap (λ x. list_next x (list_calls heap cs))
        (retrieve_list m parse h (buffers cells) ∙ ap (λ x. retrieved x (buffers cells)) d),
  )
  taken m parse cs q a h cells lost failed d (q', e, i) k =
      in_front m parse cs q q' (h ∷ buffers cells) (buffers cells) unreadable (length lost)
        (length lost + 1) e
        (ap (λ x. list_next x (list_calls heap cs))
          (retrieve_list m parse h (buffers cells) ∙ ap (λ x. retrieved x (buffers cells)) d))
        (λ fs. omega arith)
        (subst (Agrees cs q' (buffers cells)) (omega arith) (k q' ((a, h) ∷ lost) i (omega arith)))
  taken m parse cs q a h cells lost (got p more) d (q', e, i) k =
      in_front m parse cs q q' (h ∷ buffers cells) (buffers cells) (read p) (length lost)
        (length lost) e
        (ap (λ x. list_next x (list_calls heap cs))
          (retrieve_list m parse h (buffers cells) ∙ ap (λ x. retrieved x (buffers cells)) d))
        (λ fs. refl) (k q' lost i (omega arith))

  node_calls-Agrees :
      (cs : List Call) (q : NodeQueue) (cells lost : Cells)
      → IsQueue q cells lost
      → length cells + length lost + length cs ≤ memory
      → Agrees cs q (buffers cells) (length lost)
  unfolding node_calls list_calls
  node_calls-Agrees [] q cells lost i le = inr (
    ([], q),
    refl,
    (cells, lost, i, (let e : length lost ≡ length lost + 0 = omega arith in e), refl),
  )
  node_calls-Agrees (push xs ∷ cs) q cells lost i le =
      let (a, m, u) =
        gives q.store (cells ++ lost)
          (λ b. elim (i.only b) [ inl u ↦ inl u | inr w ↦ inr (Holds-append b cells lost w) ])
          (omega (arith, length-append cells lost)) in
      let (q', e, i') = push-IsQueue heap malloc q cells lost xs a m u i in
      let h = buffer_from_data heap xs in
      let now = ap (λ o. o >>= λ x. node_calls heap malloc cs x) e in
      let listed =
        ap (λ o. o >>= λ x. list_calls heap cs x) (list_push (buffers cells) xs)
        ∙ ap (list_calls heap cs) (sym (map-append (λ c. c.1) cells ((a, h) ∷ []))) in
      elim (node_calls-Agrees cs q' (cells ++ ((a, h) ∷ [])) lost i'
        (omega (arith, length-append cells ((a, h) ∷ [])))) [
          | inl (x, y) ↦ inl (now ∙ x, listed ∙ y)
          | inr (r, x, (rest, gone, j, n, y)) ↦ inr (r, now ∙ x, (rest, gone, j, n, listed ∙ y))
        ]
  node_calls-Agrees (retrieve m parse ∷ cs) q [] lost i le =
      in_front m parse cs q q [] [] empty (length lost) (length lost)
        (retrieve-empty m parse q lost i) (unfold recvpool_retrieve pqueue_pop list_next in refl)
        (λ fs. refl) (node_calls-Agrees cs q [] lost i (omega arith))
  node_calls-Agrees (retrieve m parse ∷ cs) q ((a, h) ∷ cells) lost i le =
      taken m parse cs q a h cells lost (deserialized m parse h) refl
        (retrieve-Taken m parse q a h cells lost i)
        (λ q' gone j few. node_calls-Agrees cs q' cells gone j (omega arith))

  -- Whatever pushes and retrievals are made of a new queue, in any order: either they are undefined
  -- on the stored nodes and on a queue that is a list, or they are defined on both, the retrievals
  -- give the same, and after `pqueue_clean`, to a depth that is the number of packets that are left,
  -- the nodes that are still stored are exactly as many as packets could not be read. There is
  -- memory for as many nodes as there are calls, and the allocator has room for a node.
  pub node_calls-list :
      (cs : List Call)
      → length cs ≤ memory
      → ((node_calls heap malloc cs (node_init nothing_stored) ≡ none)
          × (list_calls heap cs pqueue_init ≡ none))
        ⊎ Returns
            (λ r.
              Returns
                (λ l.
                  (l.0 ≡ map packet_of r.0)
                  × Returns (λ s. Stored s (unread r.0)) (node_clean (length l.1) r.1))
                (list_calls heap cs pqueue_init))
            (node_calls heap malloc cs (node_init nothing_stored))
  unfolding node_init node_clean
  node_calls-list cs le =
      let start : IsQueue (node_init nothing_stored) [] [] = record {
        chain = refl;
        end = refl;
        only = λ a. inl refl;
        kept = λ a w. absurd w;
        apart = tt;
      } in
      elim (node_calls-Agrees cs (node_init nothing_stored) [] [] start (omega arith)) [
        | inl u ↦ inl u
        | inr (r, e, (rest, gone, i, n, g)) ↦
            let (s, q, (kept, taken_out)) = destroy_nodes-freed r.1.store r.1.head rest i.chain in
            inr (
              r,
              e,
              (
                (map packet_of r.0, buffers rest),
                g,
                (
                  refl,
                  (
                    s,
                    ap (λ n. destroy_nodes n r.1.head r.1.store) (length-map (λ c. c.1) rest) ∙ q,
                    record {
                      nodes = gone;
                      number = (let at_first : length gone ≡ 0 + unread r.0 = n in omega arith);
                      apart = i.apart;
                      only = λ a. elim (Holds-or a rest) [
                        | inl w ↦ inl (taken_out a w)
                        | inr f ↦ elim (i.only a) [
                          | inl u ↦ inl (kept a f ∙ u)
                          | inr (inl w) ↦ inl (taken_out a w)
                          | inr (inr w) ↦ inr w
                        ]
                      ];
                      kept = λ a w. let (there, f) = i.kept a w in λ x. there (sym (kept a f) ∙ x);
                    },
                  ),
                ),
              ),
            )
      ]
