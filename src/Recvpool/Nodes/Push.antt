-- ===== src/Recvpool/Nodes/Push.antt =====
-- A push to the stored queue of src/recvpool.c puts a node behind the last one.
use mathlib.Core.Path.{subst}
use sasd_protocols.Prelude.{
  ℕ, ◌≡◌, ◌≢◌, ◌⊎◌, inl, inr, refl, sym, ap, ◌∙◌, List, [], ◌∷◌, ◌++◌, none, some, ◌>>=◌, arith,
  Returns,
}
use sasd_protocols.Buffer.Types.{Allocator}
use sasd_protocols.Buffer.Push.{buffer_from_data}
use sasd_protocols.Recvpool.Nodes.{
  Node, Store, NodeQueue, Malloc, write, link, link_behind, new_node, node_push,
}
use sasd_protocols.Recvpool.Nodes.Chain.{
  Cells, Holds, IsQueue, write_same, write_other, ℕ_or, Chain-write, unused-Fresh, Chain-link,
  last-stored, last_snoc, last_some, Holds-snoc, Holds-last, Fresh-snoc, last-Fresh,
}

no_node : {n : Node} → none ≡ some n → ⊥
no_node e = ground arith

module _ (heap : Allocator) (malloc : Malloc) where
  -- The queue in which the new node is stored, and not yet linked.
  stored : NodeQueue → List ℕ → ℕ → NodeQueue
  stored q xs a = record q { store = write q.store a (some (new_node heap malloc xs)) }

  -- Where nothing else was stored, only these nodes are after a push.
  only-push :
      (q : NodeQueue) (cells lost : Cells) (xs : List ℕ) (a : ℕ) (s : Store)
      → IsQueue q cells lost
      → ((b : ℕ) → b ≢ a → q.store b ≡ none → s b ≡ none)
      → (b : ℕ)
      → (s b ≡ none) ⊎ (Holds b (cells ++ ((a, buffer_from_data heap xs) ∷ [])) ⊎ Holds b lost)
  only-push q cells lost xs a s i kept b = elim (ℕ_or b a) [
    | inl e ↦ inr (
        inl (
          subst (λ x. Holds x (cells ++ ((a, buffer_from_data heap xs) ∷ []))) (sym e)
            (Holds-last a (buffer_from_data heap xs) cells)))
    | inr n ↦ elim (i.only b) [
      | inl u ↦ inl (kept b n u)
      | inr (inl w) ↦ inr (inl (Holds-snoc b a (buffer_from_data heap xs) cells w))
      | inr (inr w) ↦ inr (inr w)
    ]
  ]

  -- The lost nodes are stored elsewhere.
  elsewhere :
      (q : NodeQueue) (cells lost : Cells) (a : ℕ)
      → q.store a ≡ none
      → IsQueue q cells lost
      → (b : ℕ) → Holds b lost
      → b ≢ a
  elsewhere q cells lost a u i b w e = (i.kept b w).0 (ap q.store e ∙ u)

  -- A push to a queue that is these nodes.
  pub push-IsQueue :
      (q : NodeQueue) (cells lost : Cells) (xs : List ℕ) (a : ℕ)
      → malloc q.store ≡ some a
      → q.store a ≡ none
      → IsQueue q cells lost
      → Returns
          (λ q'. IsQueue q' (cells ++ ((a, buffer_from_data heap xs) ∷ [])) lost)
          (node_push heap malloc q xs)
  unfolding node_push link link_behind new_node stored
  push-IsQueue q [] lost xs a m u i =
      let new : Node = record { next = none; buffer = buffer_from_data heap xs } in
      let s = write q.store a (some new) in
      (
        record { head = some a; tail = some a; store = s },
        ap (λ p. p >>= λ b. link b q.head (stored q xs b)) m
            ∙ ap (λ h. link a h (stored q xs a)) i.chain,
        record {
          chain = (refl, tt, (none, write_same q.store a (some new), refl));
          end = refl;
          only = only-push q [] lost xs a s i (λ b n e. write_other q.store a b (some new) n ∙ e);
          kept = λ b w.
              let n = elsewhere q [] lost a u i b w in
              (
                (λ e. (i.kept b w).0 (sym (write_other q.store a b (some new) n) ∙ e)),
                ((λ x. n (sym x)), tt),
              );
          apart = i.apart;
        },
      )
  push-IsQueue q (c ∷ cs) lost xs a m u i =
      let new : Node = record { next = none; buffer = buffer_from_data heap xs } in
      let s = write q.store a (some new) in
      let (t, e) = last_some c cs in
      let (node, at) = last-stored q.store t q.head c cs e i.chain in
      let apart : a ≢ t = λ k. no_node (sym u ∙ ap q.store k ∙ at) in
      let there : s t ≡ some node = write_other q.store a t (some new) (λ k. apart (sym k)) ∙ at in
      let s' = write s t (some (record node { next = some a })) in
      let fresh = unused-Fresh q.store a q.head (c ∷ cs) u i.chain in
      (
        record { head = q.head; tail = some a; store = s' },
        ap (λ p. p >>= λ b. link b q.head (stored q xs b)) m
            ∙ ap (λ h. link a h (stored q xs a)) i.chain.0
            ∙ ap (λ p. link_behind a p (stored q xs a)) (i.end ∙ e)
            ∙ ap
                (λ o. o >>= λ node. some (record (stored q xs a) {
                  tail = some a;
                  store = write s t (some (record node { next = some a }));
                }))
                there,
        record {
          chain =
              Chain-link s a t (buffer_from_data heap xs) node q.head c cs
                (write_same q.store a (some new)) apart fresh e there
                (Chain-write q.store a (some new) q.head (c ∷ cs) fresh i.chain);
          end = sym (last_snoc a (buffer_from_data heap xs) (c ∷ cs));
          only = only-push q (c ∷ cs) lost xs a s' i (λ b n' f.
              write_other s t b (some (record node { next = some a }))
                (λ k. no_node (sym f ∙ ap q.store k ∙ at))
              ∙ write_other q.store a b (some new) n'
              ∙ f);
          kept = λ b w.
              let n = elsewhere q (c ∷ cs) lost a u i b w in
              let (there', f) = i.kept b w in
              (
                (λ g. there' (
                    sym (write_other q.store a b (some new) n)
                    ∙ sym (
                        write_other s t b (some (record node { next = some a }))
                          (last-Fresh t b c cs e f))
                    ∙ g)),
                Fresh-snoc b a (buffer_from_data heap xs) (c ∷ cs) (λ x. n (sym x)) f,
              );
          apart = i.apart;
        },
      )
