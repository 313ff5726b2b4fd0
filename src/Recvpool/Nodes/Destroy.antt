-- ===== src/Recvpool/Nodes/Destroy.antt =====
-- How src/recvpool.c frees the nodes of a queue.
use sasd_protocols.Prelude.{
  ℕ, suc, ◌≡◌, ◌≢◌, inl, inr, refl, sym, ap, ◌∙◌, [], ◌∷◌, length, none, some, ◌>>=◌, Returns,
}
use sasd_protocols.Recvpool.Nodes.{Ptr, Store, write, destroy_nodes}
use sasd_protocols.Recvpool.Nodes.Chain.{Cells, Fresh, Chain, Holds, write_same, write_other, ℕ_or}

-- All nodes are freed, to a depth that is their number.
pub destroy_nodes-freed :
    (s : Store) (p : Ptr) (cells : Cells)
    → Chain s p cells
    → Returns
        (λ s'. ((b : ℕ) → Fresh b cells → s' b ≡ s b) × ((b : ℕ) → Holds b cells → s' b ≡ none))
        (destroy_nodes (length cells) p s)
unfolding destroy_nodes
destroy_nodes-freed s p [] c =
    (s, ap (λ p. destroy_nodes 0 p s) c, ((λ b f. refl), (λ b w. absurd w)))
destroy_nodes-freed s p ((a, h) ∷ cs) (e, k, (next, at, rest)) =
    let (s', q, (kept, gone)) = destroy_nodes-freed s next cs rest in
    (
      write s' a none,
      ap (λ p. destroy_nodes (suc (length cs)) p s) e
          ∙ ap
              (λ o. o >>= λ n.
                destroy_nodes (length cs) n.next s >>= λ t. t a >>= λ m. some (write t a none))
              at
          ∙ ap (λ o. o >>= λ t. t a >>= λ m. some (write t a none)) q
          ∙ ap (λ o. o >>= λ m. some (write s' a none)) (kept a k ∙ at),
      (
        (λ b f. write_other s' a b none (λ x. f.0 (sym x)) ∙ kept b f.1),
        (λ b w. elim (ℕ_or b a) [
          | inl x ↦ ap (write s' a none) x ∙ write_same s' a none
          | inr n ↦ write_other s' a b none n ∙ gone b (behind b w n)
        ]),
      ),
    )
  where
    behind : (b : ℕ) → Holds b ((a, h) ∷ cs) → b ≢ a → Holds b cs
    behind b (inl x) n = absurd (n x)
    behind b (inr w) n = w
