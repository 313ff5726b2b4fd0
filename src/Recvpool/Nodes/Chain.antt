-- ===== src/Recvpool/Nodes/Chain.antt =====
-- The nodes of a queue in src/recvpool.c, from the first to the last, and what writes do to them.
use sasd_protocols.Prelude.{
  ℕ, ◌≡◌, ◌≢◌, ◌⊎◌, inl, inr, refl, sym, ap, ◌∙◌, List, [], ◌∷◌, ◌++◌, All, Option, none, some,
  ==_iff, ne→==_false, arith,
}
use sasd_protocols.Buffer.Types.{Handle}
use sasd_protocols.Recvpool.Nodes.{Ptr, Node, Store, NodeQueue, write}

-- The address of each node, and its buffer.
abbrev pub Cells : Type 0
Cells = List (ℕ × Handle)

abbrev pub Fresh : ℕ → Cells → Type 0
Fresh a cells = All (λ c. c.0 ≢ a) cells

-- From `p` the pointers lead through these nodes, which are different ones, to the null pointer.
abbrev pub Chain : Store → Ptr → Cells → Type 0
Chain store p [] = p ≡ none
Chain store p ((a, h) ∷ cs) =
    (p ≡ some a)
    × Fresh a cs
    × ((next : Ptr) × (store a ≡ some (record { next = next; buffer = h })) × Chain store next cs)

abbrev pub last_of : Cells → Ptr
last_of [] = none
last_of ((a, h) ∷ []) = some a
last_of ((a, h) ∷ c ∷ cs) = last_of (c ∷ cs)

-- The address is that of one of these nodes.
abbrev pub Holds : ℕ → Cells → Type 0
Holds a [] = ⊥
Holds a (c ∷ cs) = (a ≡ c.0) ⊎ Holds a cs

-- The nodes are different ones.
abbrev pub Distinct : Cells → Type 0
Distinct [] = Unit
Distinct (c ∷ cs) = Fresh c.0 cs × Distinct cs

-- The queue is these nodes; beside them only the lost ones are stored.
pub record IsQueue (q : NodeQueue) (cells lost : Cells) : Type 0 where
  pub chain : Chain q.store q.head cells
  pub end : q.tail ≡ last_of cells
  pub only : (a : ℕ) → (q.store a ≡ none) ⊎ (Holds a cells ⊎ Holds a lost)
  pub kept : (a : ℕ) → Holds a lost → (q.store a ≢ none) × Fresh a cells
  pub apart : Distinct lost

pub write_same : (s : Store) (a : ℕ) (n : Option Node) → write s a n a ≡ n
unfolding write
write_same s a n = rw ((==_iff a a).1 refl) refl

pub write_other : (s : Store) (a b : ℕ) (n : Option Node) → b ≢ a → write s a n b ≡ s b
unfolding write
write_other s a b n h = rw (ne→==_false b a h) refl

pub ℕ_or : (a b : ℕ) → (a ≡ b) ⊎ (a ≢ b)
ℕ_or a b = ground arith

-- A chain survives a write to another address.
pub Chain-write :
    (s : Store) (a : ℕ) (n : Option Node) (p : Ptr) (cs : Cells)
    → Fresh a cs
    → Chain s p cs
    → Chain (write s a n) p cs
Chain-write s a n p [] f c = c
Chain-write s a n p ((b, h) ∷ cs) (k, f) (e, g, (next, q, c)) =
    (e, g, (next, write_other s a b n k ∙ q, Chain-write s a n next cs f c))

-- No node of a chain stands at an address that holds none.
pub unused-Fresh :
    (s : Store) (a : ℕ) (p : Ptr) (cs : Cells) → s a ≡ none → Chain s p cs → Fresh a cs
unused-Fresh s a p [] u c = tt
unused-Fresh s a p ((b, h) ∷ cs) u (e, g, (next, q, c)) =
    ((λ k. no_node (sym u ∙ ap s (sym k) ∙ q)), unused-Fresh s a next cs u c)
  where
    no_node : {n : Node} → none ≡ some n → ⊥
    no_node e = ground arith

pub Fresh-snoc :
    (a b : ℕ) (h : Handle) (cs : Cells) → b ≢ a → Fresh a cs → Fresh a (cs ++ ((b, h) ∷ []))
Fresh-snoc a b h [] n f = (n, tt)
Fresh-snoc a b h (c ∷ cs) n (k, f) = (k, Fresh-snoc a b h cs n f)

same_ptr : {a b : ℕ} → some a ≡ some b → a ≡ b
same_ptr e = cc

same_node : {a b : Node} → some a ≡ some b → a ≡ b
same_node e = cc

-- The last node is at an address that is not that of an earlier one.
pub last-Fresh :
    (t : ℕ) (b : ℕ) (c : ℕ × Handle) (cs : Cells)
    → last_of (c ∷ cs) ≡ some t
    → Fresh b (c ∷ cs)
    → b ≢ t
last-Fresh t b c [] e (n, f) q = n (same_ptr e ∙ sym q)
last-Fresh t b c (d ∷ cs) e (n, f) q = last-Fresh t b d cs e f q

-- The last node is made to lead to a new one.
pub Chain-link :
    (s : Store) (a t : ℕ) (h : Handle) (n : Node) (p : Ptr) (c : ℕ × Handle) (cs : Cells)
    → s a ≡ some (record { next = none; buffer = h })
    → a ≢ t
    → Fresh a (c ∷ cs)
    → last_of (c ∷ cs) ≡ some t
    → s t ≡ some n
    → Chain s p (c ∷ cs)
    → Chain (write s t (some (record n { next = some a }))) p ((c ∷ cs) ++ ((a, h) ∷ []))
Chain-link s a t h n p (b, g) [] new apart (f, fs) last_one at (e, k, (next, q, end)) =
    let same : b ≡ t = same_ptr last_one in
    let v = some (record n { next = some a }) in
    let kept : n.buffer ≡ g = ap (λ x. x.buffer) (same_node (sym at ∙ ap s (sym same) ∙ q)) in
    (
      e,
      ((λ x. f (sym x)), tt),
      (
        some a,
        ap (write s t v) same
            ∙ write_same s t v
            ∙ ap (λ x. some (record { next = some a; buffer = x })) kept,
        (refl, tt, (none, write_other s t a v apart ∙ new, refl)),
      ),
    )
Chain-link s a t h n p (b, g) (c ∷ cs) new apart (f, fs) last_one at (e, k, (next, q, rest)) = (
  e,
  Fresh-snoc b a h (c ∷ cs) (λ x. f (sym x)) k,
  (
    next,
    write_other s t b (some (record n { next = some a })) (last-Fresh t b c cs last_one k) ∙ q,
    Chain-link s a t h n next c cs new apart fs last_one at rest,
  ),
)

-- The last node of a chain is stored.
pub last-stored :
    (s : Store) (t : ℕ) (p : Ptr) (c : ℕ × Handle) (cs : Cells)
    → last_of (c ∷ cs) ≡ some t
    → Chain s p (c ∷ cs)
    → (n : Node) × (s t ≡ some n)
last-stored s t p (b, g) [] e (q, k, (next, r, end)) =
    (record { next = next; buffer = g }, ap s (sym (same_ptr e)) ∙ r)
last-stored s t p (b, g) (c ∷ cs) e (q, k, (next, r, rest)) = last-stored s t next c cs e rest

pub last_snoc : (a : ℕ) (h : Handle) (cs : Cells) → last_of (cs ++ ((a, h) ∷ [])) ≡ some a
last_snoc a h [] = refl
last_snoc a h (c ∷ []) = refl
last_snoc a h (c ∷ d ∷ cs) = last_snoc a h (d ∷ cs)

pub last_some : (c : ℕ × Handle) (cs : Cells) → (t : ℕ) × (last_of (c ∷ cs) ≡ some t)
last_some (a, h) [] = (a, refl)
last_some (a, h) (d ∷ cs) = last_some d cs

pub Holds-snoc : (b a : ℕ) (h : Handle) (cs : Cells) → Holds b cs → Holds b (cs ++ ((a, h) ∷ []))
Holds-snoc b a h [] w = absurd w
Holds-snoc b a h (c ∷ cs) (inl e) = inl e
Holds-snoc b a h (c ∷ cs) (inr w) = inr (Holds-snoc b a h cs w)

pub Holds-last : (a : ℕ) (h : Handle) (cs : Cells) → Holds a (cs ++ ((a, h) ∷ []))
Holds-last a h [] = inl refl
Holds-last a h (c ∷ cs) = inr (Holds-last a h cs)

pub Holds-or : (b : ℕ) (cs : Cells) → Holds b cs ⊎ Fresh b cs
Holds-or b [] = inr tt
Holds-or b (c ∷ cs) = elim (ℕ_or b c.0) [
  | inl e ↦ inl (inl e)
  | inr n ↦ elim (Holds-or b cs) [ inl w ↦ inl (inr w) | inr f ↦ inr ((λ x. n (sym x)), f) ]
]

pub Holds-append : (b : ℕ) (cs ds : Cells) → Holds b cs ⊎ Holds b ds → Holds b (cs ++ ds)
Holds-append b [] ds (inl w) = absurd w
Holds-append b [] ds (inr w) = w
Holds-append b (c ∷ cs) ds (inl (inl e)) = inl e
Holds-append b (c ∷ cs) ds (inl (inr w)) = inr (Holds-append b cs ds (inl w))
Holds-append b (c ∷ cs) ds (inr w) = inr (Holds-append b cs ds (inr w))
