-- ===== src/Server/Threads/Members.antt =====
-- The steps of src/server.c that change the list of the clients, or empty a send buffer.
use mathlib.Core.List.{map-append}
use mathlib.Core.Path.{subst}
use sasd_protocols.Prelude.{
  ℕ, ◌≤◌, ◌≡◌, ◌≢◌, inl, inr, refl, sym, ap, ◌∙◌, List, ◌∷◌, ◌++◌, map, All, length, append-nil,
  Option, Bool, true, false, ℤ, arith,
}
use sasd_protocols.Buffer.Types.{Allocator}
use sasd_protocols.Bvec.{Bvec, contents, bv_reset}
use sasd_protocols.Bvec.Laws.{IsBvec}
use sasd_protocols.Server.{Client, client_flush}
use sasd_protocols.Server.Leave.{TakenOut, client_flush-prefix, client_flush-whole, IsProgress}
use sasd_protocols.Server.Threads.{System, leaving, absent}
use sasd_protocols.Server.Threads.Hub.{PacketBytes, Note, Hub, put}
use sasd_protocols.Server.Threads.Hub.Boxes.{Within, Distinct, eq_or, put_same, put_other}
use sasd_protocols.Server.Threads.Hub.Delivery.{IsSound}
use sasd_protocols.Server.Threads.Apart.{apart, Within-without, All-both, All-append, All-split}
use sasd_protocols.Server.Threads.Moves.{stored-same}
use sasd_protocols.Server.Threads.Link.{pending_of, IsLinked, Linked}

broke : true ≡ false → ⊥
broke e = ground arith

reset-IsBvec : (v : Bvec) → IsBvec v → IsBvec (bv_reset v)
unfolding bv_reset
reset-IsBvec v h = record {
  written = omega arith;
  inside = h.inside;
  block = h.block;
  small = h.small;
}

flush_same_id : (results : List (Option ℕ)) (c : Client) → (client_flush results c).1.id ≡ c.id
unfolding client_flush
flush_same_id results c = refl

module _ (heap : Allocator) where
  -- Another client's bytes do not matter.
  pub elsewhere :
      (taken : ℤ → List ℕ) (log : ℤ → List PacketBytes) (box : ℤ → List (ℤ × Note)) (k : ℤ)
      (bytes : List ℕ) (c : Client)
      → IsLinked heap taken log box c
      → c.id ≢ k
      → IsLinked heap (put k bytes taken) log box c
  elsewhere taken log box k bytes c l n = record {
    valid = l.valid;
    history = l.history;
    sent = ap (λ b. b ++ contents c.sbuffer) (put_other k c.id bytes taken n) ∙ l.sent;
  }

  -- What the send buffer held is taken out of it.
  flushed :
      (taken : ℤ → List ℕ) (log : ℤ → List PacketBytes) (box : ℤ → List (ℤ × Note))
      (results : List (Option ℕ)) (c : Client)
      → IsLinked heap taken log box c
      → IsLinked heap
          (put c.id (taken c.id ++ contents c.sbuffer) taken)
          log
          box
          (client_flush results c).1
  unfolding client_flush
  flushed taken log box results c l = record {
    valid = record {
      history = l.valid.history;
      send_buffer = reset-IsBvec c.sbuffer l.valid.send_buffer;
    };
    history = l.history;
    sent =
        ap (λ b. b ++ contents (client_flush results c).1.sbuffer)
          (put_same c.id (taken c.id ++ contents c.sbuffer) taken)
        ∙ ap (λ b. (taken c.id ++ contents c.sbuffer) ++ b) (client_flush-prefix results c).1
        ∙ append-nil (taken c.id ++ contents c.sbuffer)
        ∙ l.sent;
  }

module _ (heap : Allocator) (s : System) (h : Hub) (sound : IsSound h) (l : Linked heap s h) where
  Distinct-ids : Distinct (map (λ c. c.id) s.ctx.clients)
  Distinct-ids = subst (λ ms. Distinct ms) l.members sound.distinct

  pub flush-Linked :
      (results : List (Option ℕ)) (before after : List Client) (c : Client)
      → s.ctx.clients ≡ before ++ (c ∷ after)
      → (wire : ℤ → List ℕ) (broken : ℤ → Bool)
      → ((id : ℤ)
          → broken id ≡ false
          → wire id ≡ put c.id (s.taken c.id ++ contents c.sbuffer) s.taken id)
      → Linked heap
          (record s {
            ctx = record s.ctx { clients = before ++ ((client_flush results c).1 ∷ after) };
            wire = wire;
            taken = put c.id (s.taken c.id ++ contents c.sbuffer) s.taken;
            broken = broken;
          })
          h
  flush-Linked results before after c e wire broken whole =
      let P = IsLinked heap s.taken h.log h.box in
      let bytes = s.taken c.id ++ contents c.sbuffer in
      let Q = IsLinked heap (put c.id bytes s.taken) h.log h.box in
      let (ls, (k, rs)) = All-split P before (c ∷ after) (subst (All P) e l.buffers) in
      let (os, qs) =
        apart before after c (subst (λ cs. Distinct (map (λ x. x.id) cs)) e Distinct-ids) in
      let other : (x : Client) → P x → x.id ≢ c.id → Q x =
        λ x p n. elsewhere heap s.taken h.log h.box c.id bytes x p n in
      record {
        counted = l.counted;
        members =
            l.members
            ∙ ap (map (λ x. x.id)) e
            ∙ map-append (λ x. x.id) before (c ∷ after)
            ∙ ap (λ i. map (λ x. x.id) before ++ (i ∷ map (λ x. x.id) after))
                (sym (flush_same_id results c))
            ∙ sym (map-append (λ x. x.id) before ((client_flush results c).1 ∷ after));
        buffers =
            All-append Q before ((client_flush results c).1 ∷ after)
              (All-both P (λ x. x.id ≢ c.id) Q before other ls os)
              (
                flushed heap s.taken h.log h.box results c k,
                All-both P (λ x. x.id ≢ c.id) Q after other rs qs,
              );
        present = l.present;
        whole = whole;
        stored = l.stored;
      }

  -- The client's node is taken out of the list, and its thread ends.
  pub remove-Linked :
      (id : ℤ) (cs : List Client)
      → s.stage id ≡ leaving
      → (t : TakenOut id s.ctx.clients cs)
      → (h.members ≡ map (λ x. x.id) t.before ++ (t.removed.id ∷ map (λ x. x.id) t.after))
        × Linked heap
            (record s { ctx = record s.ctx { clients = cs }; stage = put id absent s.stage })
            (record h { members = map (λ x. x.id) t.before ++ map (λ x. x.id) t.after })
  unfolding pending_of
  remove-Linked id cs e t =
      let P = IsLinked heap s.taken h.log h.box in
      let (ls, (k, rs)) =
        All-split P t.before (t.removed ∷ t.after) (subst (All P) t.was l.buffers) in
      (
        l.members
            ∙ ap (map (λ x. x.id)) t.was
            ∙ map-append (λ x. x.id) t.before (t.removed ∷ t.after),
        record {
          counted = l.counted;
          members = sym (ap (map (λ x. x.id)) t.becomes ∙ map-append (λ x. x.id) t.before t.after);
          buffers = subst (All P) (sym t.becomes) (All-append P t.before t.after ls rs);
          present = λ i. elim (eq_or i id) [
            | inl q ↦ inl (ap (put id absent s.stage) q ∙ put_same id absent s.stage)
            | inr n ↦ elim (l.present i) [
              | inl a ↦ inl (put_other id i absent s.stage n ∙ a)
              | inr w ↦ inr (
                  Within-without i (map (λ x. x.id) t.before) (map (λ x. x.id) t.after) t.removed.id
                    (λ q. n (q ∙ t.found))
                    (subst (λ ms. Within i ms)
                      (l.members
                        ∙ ap (map (λ x. x.id)) t.was
                        ∙ map-append (λ x. x.id) t.before (t.removed ∷ t.after))
                      w))
            ]
          ];
          whole = l.whole;
          stored = stored-same s.stage h.pending id absent (ap pending_of e) l.stored;
        },
      )

  -- If no call of `send` fails or takes nothing, what is taken out of the send buffer goes out.
  pub flush-whole :
      (results : List (Option ℕ)) (c : Client)
      → All IsProgress results
      → length (contents c.sbuffer) ≤ length results
      → (id : ℤ) → s.broken id ≡ false
      → put c.id (s.wire c.id ++ (client_flush results c).0) s.wire id
        ≡ put c.id (s.taken c.id ++ contents c.sbuffer) s.taken id
  flush-whole results c ps le id ok = elim (eq_or id c.id) [
    | inl q ↦
        ap (put c.id (s.wire c.id ++ (client_flush results c).0) s.wire) q
        ∙ put_same c.id (s.wire c.id ++ (client_flush results c).0) s.wire
        ∙ ap (λ b. s.wire c.id ++ b) (client_flush-whole results c ps le)
        ∙ ap (λ b. b ++ contents c.sbuffer) (l.whole c.id (ap s.broken (sym q) ∙ ok))
        ∙ sym (put_same c.id (s.taken c.id ++ contents c.sbuffer) s.taken)
        ∙ sym (ap (put c.id (s.taken c.id ++ contents c.sbuffer) s.taken) q)
    | inr n ↦
        put_other c.id id (s.wire c.id ++ (client_flush results c).0) s.wire n
        ∙ l.whole id ok
        ∙ sym (put_other c.id id (s.taken c.id ++ contents c.sbuffer) s.taken n)
  ]

  -- Nothing is said of a client to which a `send` has failed.
  pub flush-failed :
      (results : List (Option ℕ)) (c : Client) (id : ℤ)
      → put c.id true s.broken id ≡ false
      → put c.id (s.wire c.id ++ (client_flush results c).0) s.wire id
        ≡ put c.id (s.taken c.id ++ contents c.sbuffer) s.taken id
  flush-failed results c id ok = elim (eq_or id c.id) [
    | inl q ↦
        absurd
          (broke (sym (put_same c.id true s.broken) ∙ sym (ap (put c.id true s.broken) q) ∙ ok))
    | inr n ↦
        put_other c.id id (s.wire c.id ++ (client_flush results c).0) s.wire n
        ∙ l.whole id (sym (put_other c.id id true s.broken n) ∙ ok)
        ∙ sym (put_other c.id id (s.taken c.id ++ contents c.sbuffer) s.taken n)
  ]
