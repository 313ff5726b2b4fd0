-- ===== src/Recvpool/Nodes/Retrieve.antt =====
-- A retrieval from the stored queue of src/recvpool.c takes the first node out, and frees it if its
-- packet can be read.
use mathlib.Core.Path.{subst}
use sasd_protocols.Prelude.{
  ℕ, ◌≡◌, ◌≢◌, ◌⊎◌, inl, inr, refl, sym, ap, ◌∙◌, [], ◌∷◌, Bool, Option, none, some, ◌>>=◌, arith,
}
use sasd_protocols.Buffer.Types.{Handle}
use sasd_protocols.Buffer.Pop.{Result, got, failed, undefined}
use sasd_protocols.Packets.Types.{Packet}
use sasd_protocols.Packets.Deserialize.{Memory}
use sasd_protocols.Recvpool.Nodes.{
  Ptr, Node, NodeQueue, Found, empty, unreadable, read, write, advance, pop_at, node_pop, release,
  read_node, deserialized, use_node, node_retrieve,
}
use sasd_protocols.Recvpool.Nodes.Chain.{
  Cells, Fresh, Chain, last_of, Holds, Holds-or, IsQueue, write_same, write_other, ℕ_or,
  Chain-write,
}

-- The queue without its first node, which is still stored.
record Popped (q : NodeQueue) (a : ℕ) (cs : Cells) (q' : NodeQueue) : Type 0 where
  store : q'.store ≡ q.store
  chain : Chain q.store q'.head cs
  end : q'.tail ≡ last_of cs

pop-Popped :
    (q : NodeQueue) (a : ℕ) (h : Handle) (cs lost : Cells)
    → IsQueue q ((a, h) ∷ cs) lost
    → (q' : NodeQueue) × (node_pop q ≡ some (some a, q')) × Popped q a cs q'
unfolding node_pop pop_at advance
pop-Popped q a h [] lost i =
    let (head, k, (next, at, end)) = i.chain in
    (
      advance none q,
      ap (λ p. pop_at p q) head
          ∙ ap (λ o. o >>= λ n. some (some a, advance n.next q)) at
          ∙ ap (λ p. some (some a, advance p q)) end,
      record { store = refl; chain = refl; end = refl },
    )
pop-Popped q a h ((b, g) ∷ cs) lost i =
    let (head, k, (next, at, (e, k', (next', at_b, rest)))) = i.chain in
    (
      advance (some b) q,
      ap (λ p. pop_at p q) head
          ∙ ap (λ o. o >>= λ n. some (some a, advance n.next q)) at
          ∙ ap (λ p. some (some a, advance p q)) e,
      record { store = refl; chain = (refl, k', (next', at_b, rest)); end = i.end },
    )

-- What a retrieval does to a queue that is these nodes, by what comes of reading the first one: the
-- node goes, and is lost if its packet cannot be read.
abbrev pub Taken : Result Packet → ℕ → Handle → Cells → Cells → Option (Found × NodeQueue) → Type 0
Taken (got p rest) a h cs lost o = (q' : NodeQueue) × (o ≡ some (read p, q')) × IsQueue q' cs lost
Taken failed a h cs lost o =
    (q' : NodeQueue) × (o ≡ some (unreadable, q')) × IsQueue q' cs ((a, h) ∷ lost)
Taken undefined a h cs lost o = o ≡ none

read_node-Taken :
    (q : NodeQueue) (a : ℕ) (h : Handle) (cs lost : Cells) (head tail : Ptr) (r : Result Packet)
    → IsQueue q ((a, h) ∷ cs) lost
    → Chain q.store head cs
    → tail ≡ last_of cs
    → Taken r a h cs lost (read_node a r (record { head = head; tail = tail; store = q.store }))
unfolding read_node release
read_node-Taken q a h cs lost head tail undefined i c e = refl
read_node-Taken q a h cs lost head tail failed i c e =
    let (_, k, (next, at, _)) = i.chain in
    (
      record { head = head; tail = tail; store = q.store },
      refl,
      record {
        chain = c;
        end = e;
        only = λ b. elim (i.only b) [
          | inl u ↦ inl u
          | inr (inl (inl x)) ↦ inr (inr (inl x))
          | inr (inl (inr w)) ↦ inr (inl w)
          | inr (inr w) ↦ inr (inr (inr w))
        ];
        kept = λ b w. kept b at k w;
        apart = (apart (Holds-or a lost), i.apart);
      },
    )
  where
    no_none : {n : Node} → some n ≡ none → ⊥
    no_none e = ground arith

    kept :
        (b : ℕ) {next : Ptr}
        → q.store a ≡ some (record { next = next; buffer = h })
        → Fresh a cs
        → Holds b ((a, h) ∷ lost)
        → (q.store b ≢ none) × Fresh b cs
    kept b at k (inl x) =
        ((λ n. no_none (sym at ∙ ap q.store (sym x) ∙ n)), subst (λ y. Fresh y cs) (sym x) k)
    kept b at k (inr w) = let (s, f) = i.kept b w in (s, f.1)

    apart : Holds a lost ⊎ Fresh a lost → Fresh a lost
    apart (inl w) = absurd ((i.kept a w).1.0 refl)
    apart (inr f) = f
read_node-Taken q a h cs lost head tail (got p rest) i c e =
    let (_, k, _) = i.chain in
    (
      record { head = head; tail = tail; store = write q.store a none },
      refl,
      record {
        chain = Chain-write q.store a none head cs k c;
        end = e;
        only = λ b. elim (ℕ_or b a) [
          | inl x ↦ inl (ap (write q.store a none) x ∙ write_same q.store a none)
          | inr n ↦ elim (i.only b) [
            | inl u ↦ inl (write_other q.store a b none n ∙ u)
            | inr (inl (inl x)) ↦ absurd (n x)
            | inr (inl (inr w)) ↦ inr (inl w)
            | inr (inr w) ↦ inr (inr w)
          ]
        ];
        kept = λ b w.
            let (s, (n, f)) = i.kept b w in
            ((λ g. s (sym (write_other q.store a b none (λ x. n (sym x))) ∙ g)), f);
        apart = i.apart;
      },
    )

pub retrieve-Taken :
    (memory : Memory) (parse : Bool) (q : NodeQueue) (a : ℕ) (h : Handle) (cs lost : Cells)
    → IsQueue q ((a, h) ∷ cs) lost
    → Taken (deserialized memory parse h) a h cs lost (node_retrieve memory parse q)
unfolding node_retrieve use_node
retrieve-Taken memory parse q a h cs lost i =
    let (q', popped, v) = pop-Popped q a h cs lost i in
    let (_, k, (next, at, _)) = i.chain in
    let r = deserialized memory parse h in
    let q'' : NodeQueue = record { head = q'.head; tail = q'.tail; store = q.store } in
    let e : node_retrieve memory parse q ≡ read_node a r q'' =
      ap (λ o. o >>= λ p. use_node memory parse p) popped
      ∙ ap
          (λ s.
            use_node memory parse (some a, record { head = q'.head; tail = q'.tail; store = s }))
          v.store
      ∙ ap (λ o. o >>= λ n. read_node a (deserialized memory parse n.buffer) q'') at in
    subst (Taken r a h cs lost) (sym e)
      (read_node-Taken q a h cs lost q'.head q'.tail r i v.chain v.end)

-- From an empty queue nothing is taken.
pub retrieve-empty :
    (memory : Memory) (parse : Bool) (q : NodeQueue) (lost : Cells)
    → IsQueue q [] lost
    → node_retrieve memory parse q ≡ some (empty, q)
unfolding node_retrieve node_pop pop_at use_node
retrieve-empty memory parse q lost i = ap (λ p. pop_at p q >>= λ r. use_node memory parse r) i.chain
