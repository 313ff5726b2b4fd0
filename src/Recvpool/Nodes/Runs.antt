-- ===== src/Recvpool/Nodes/Runs.antt =====
-- The stored queue of src/recvpool.c at concrete calls, with a `malloc` that takes the first free
-- address.
use sasd_protocols.Prelude.{
  ℕ, zero, suc, ◌+◌, ◌≤◌, ◌<◌, ◌≡◌, ◌≢◌, ◌⊎◌, inl, inr, refl, sym, ◌∙◌, List, [], ◌∷◌, map, length,
  pos, none, some, Option-cases, true, Returns, arith,
}
use sasd_protocols.Buffer.Types.{Allocator, Realloc}
use sasd_protocols.Packets.Types.{handshake}
use sasd_protocols.Packets.Deserialize.{Memory}
use sasd_protocols.Packets.Deserialize.Whole.{relayed_bytes}
use sasd_protocols.Recvpool.{pqueue_init}
use sasd_protocols.Recvpool.Nodes.{
  Node, Store, Malloc, Call, push, retrieve, node_init, node_clean, node_calls, list_calls,
}
use sasd_protocols.Recvpool.Nodes.Chain.{Cells, Holds}
use sasd_protocols.Recvpool.Nodes.Whole.{
  HasMemory, nothing_stored, packet_of, unread, Stored, node_calls-list,
}

-- The first free one of so many addresses from `a` on.
first_free : ℕ → ℕ → Malloc
first_free zero a s = none
first_free (suc n) a s = elim (s a) [ none ↦ some a | some node ↦ first_free n (a + 1) s ]

-- The nodes but the first at an address.
without : (a : ℕ) (cells : Cells) → Holds a cells → Cells
without a [] w = []
without a (c ∷ cells) (inl e) = cells
without a (c ∷ cells) (inr w) = c ∷ without a cells w

length-without :
    (a : ℕ) (cells : Cells) (w : Holds a cells) → length (without a cells w) + 1 ≡ length cells
unfolding without
length-without a [] w = absurd w
length-without a (c ∷ cells) (inl e) = omega arith
length-without a (c ∷ cells) (inr w) = omega (arith, length-without a cells w)

Holds-without :
    (b a : ℕ) (cells : Cells) (w : Holds a cells)
    → b ≢ a
    → Holds b cells
    → Holds b (without a cells w)
unfolding without
Holds-without b a [] w n v = absurd w
Holds-without b a (c ∷ cells) (inl e) n (inl f) = absurd (n (f ∙ sym e))
Holds-without b a (c ∷ cells) (inl e) n (inr v) = v
Holds-without b a (c ∷ cells) (inr w) n (inl f) = inl f
Holds-without b a (c ∷ cells) (inr w) n (inr v) = inr (Holds-without b a cells w n v)

first_free_lem :
    (n a : ℕ) (s : Store) (cells : Cells)
    → ((b : ℕ) → a ≤ b → (s b ≡ none) ⊎ Holds b cells)
    → length cells < n
    → (b : ℕ) × (first_free n a s ≡ some b) × (s b ≡ none)
unfolding first_free
first_free_lem zero a s cells only le = absurd (omega arith)
first_free_lem (suc n) a s cells only le = elim (Option-cases (s a)) [
  | inl e ↦ (a, rw (e, first_free) refl, e)
  | inr (node, e) ↦ elim (only a (omega arith)) [
    | inl u ↦ absurd (occupied (sym u ∙ e))
    | inr w ↦
        let (b, q, u) =
          first_free_lem n (a + 1) s (without a cells w)
            (λ b l. elim (only b (omega arith)) [
              | inl u ↦ inl u
              | inr v ↦ inr (Holds-without b a cells w (λ x. absurd (omega arith)) v)
            ])
            (omega (arith, length-without a cells w)) in
        (b, rw (e, first_free) q, u)
  ]
]
  where
    occupied : {node : Node} → none ≡ some node → ⊥
    occupied e = ground arith

first_free-HasMemory : HasMemory 5 (first_free 5 0)
first_free-HasMemory s cells only le = first_free_lem 5 0 s cells (λ b l. only b) le

abbrev plenty : Allocator
plenty = record { malloc = λ n. true; realloc = λ n. Realloc.same }

abbrev memory : Memory
memory = record { sender_id = pos 7; death_count = pos 5 }

-- The first packet is one of the server and can be read: the second push reuses its address. The
-- second one has a byte only, and cannot be read.
abbrev calls : List Call
calls =
    push (relayed_bytes (pos 3) (handshake (pos 258)))
    ∷ retrieve memory true
    ∷ push (2 ∷ [])
    ∷ retrieve memory true
    ∷ push (4 ∷ [])
    ∷ []

node_calls-list_example :
    ((node_calls plenty (first_free 5 0) calls (node_init nothing_stored) ≡ none)
      × (list_calls plenty calls pqueue_init ≡ none))
    ⊎ Returns
        (λ r.
          Returns
            (λ l.
              (l.0 ≡ map packet_of r.0)
              × Returns (λ s. Stored s (unread r.0)) (node_clean (length l.1) r.1))
            (list_calls plenty calls pqueue_init))
        (node_calls plenty (first_free 5 0) calls (node_init nothing_stored))
node_calls-list_example =
    node_calls-list plenty (first_free 5 0) 5 first_free-HasMemory refl calls (omega arith)
