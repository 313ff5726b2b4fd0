-- ===== src/Server/Threads/Moves.antt =====
-- The steps of src/server.c that pass a packet or a notice on are steps of the hub.
use mathlib.Core.Path.{subst}
use sasd_protocols.Prelude.{
  ℕ, ◌≡◌, ◌≢◌, ◌⊎◌, inl, inr, sym, ap, ◌∙◌, List, [], ◌∷◌, ◌++◌, All, Option, none, some, take, ℤ,
  arith,
}
use sasd_protocols.Buffer.Types.{Allocator}
use sasd_protocols.Bvec.{Bvec, contents}
use sasd_protocols.Bvec.Success.{IsFinite}
use sasd_protocols.Packets.Types.{connected, disconnected}
use sasd_protocols.Server.{
  Client, Context, client_connected, announce, server_broadcast, remember, each_client,
}
use sasd_protocols.Server.Relay.{PassedOn, Each}
use sasd_protocols.Server.Round.{Remembered, Each-All}
use sasd_protocols.Server.Threads.{System, Stage, starting, reading, passing, leaving, absent}
use sasd_protocols.Server.Threads.Hub.{PacketBytes, Note, arrived, departed, passed, Hub, put, tell}
use sasd_protocols.Server.Threads.Hub.Boxes.{Within, eq_or, put_same, put_other}
use sasd_protocols.Server.Threads.Bytes.{framed}
use sasd_protocols.Server.Threads.Handlers.{
  IsClient, announce-some, server_broadcast-some, remember-Each,
}
use sasd_protocols.Server.Threads.Buffers.{Each-ids, All-map, told, kept}
use sasd_protocols.Server.Threads.Link.{note_bytes, pending_of, IsLinked, Linked}

-- A thread moves on: its client is there.
pub present-put :
    (stage : ℤ → Stage) (ms : List ℤ) (k : ℤ) (st : Stage)
    → Within k ms
    → ((id : ℤ) → (stage id ≡ absent) ⊎ Within id ms)
    → (id : ℤ) → (put k st stage id ≡ absent) ⊎ Within id ms
present-put stage ms k st given h id = elim (eq_or id k) [
  | inl e ↦ inr (subst (λ i. Within i ms) (sym e) given)
  | inr n ↦ elim (h id) [ inl a ↦ inl (put_other k id st stage n ∙ a) | inr b ↦ inr b ]
]

pub stored-put :
    (stage : ℤ → Stage) (pending : ℤ → Option PacketBytes) (k : ℤ) (st : Stage)
    → ((id : ℤ) → pending id ≡ pending_of (stage id))
    → (id : ℤ) → put k (pending_of st) pending id ≡ pending_of (put k st stage id)
stored-put stage pending k st h id = elim (eq_or id k) [
  | inl e ↦
      ap (put k (pending_of st) pending) e
      ∙ put_same k (pending_of st) pending
      ∙ ap pending_of (sym (put_same k st stage) ∙ sym (ap (put k st stage) e))
  | inr n ↦
      put_other k id (pending_of st) pending n
      ∙ h id
      ∙ ap pending_of (sym (put_other k id st stage n))
]

-- Nothing is stored before or after the step.
pub stored-same :
    (stage : ℤ → Stage) (pending : ℤ → Option PacketBytes) (k : ℤ) (st : Stage)
    → pending_of (stage k) ≡ pending_of st
    → ((id : ℤ) → pending id ≡ pending_of (stage id))
    → (id : ℤ) → pending id ≡ pending_of (put k st stage id)
stored-same stage pending k st q h id = elim (eq_or id k) [
  | inl e ↦
      ap pending e
      ∙ h k
      ∙ q
      ∙ ap pending_of (sym (put_same k st stage) ∙ sym (ap (put k st stage) e))
  | inr n ↦ h id ∙ ap pending_of (sym (put_other k id st stage n))
]

-- A thread that runs has its client in the list.
pub there :
    (stage : ℤ → Stage) (ms : List ℤ) (k : ℤ) (st : Stage)
    → stage k ≡ st
    → st ≢ absent
    → ((id : ℤ) → (stage id ≡ absent) ⊎ Within id ms)
    → Within k ms
there stage ms k st e n h = elim (h k) [ inl a ↦ absurd (n (sym e ∙ a)) | inr b ↦ b ]

module _ (heap : Allocator) (finite : IsFinite heap) (s : System) (h : Hub)
    (l : Linked heap s h) where
  valid_clients : All IsClient s.ctx.clients
  valid_clients =
      All-map (IsLinked heap s.taken h.log h.box) IsClient s.ctx.clients (λ c p. p.valid) l.buffers

  -- The others were told, and a thread moved on.
  told-Linked :
      (id : ℤ) (note : Note) (ctx : Context) (stage : ℤ → Stage) (pending : ℤ → Option PacketBytes)
      → (ctx.client_count ≡ s.ctx.client_count)
        × Each (PassedOn id (note_bytes heap id note)) s.ctx.clients ctx.clients
      → ((id : ℤ) → (stage id ≡ absent) ⊎ Within id h.members)
      → ((id : ℤ) → pending id ≡ pending_of (stage id))
      → Linked heap
          (record s { ctx = ctx; stage = stage })
          (record h { pending = pending; box = tell id note h.box })
  told-Linked id note ctx stage pending (count, each) present stored = record {
    counted = count ∙ l.counted;
    members =
        l.members
        ∙ sym (
            Each-ids (PassedOn id (note_bytes heap id note)) s.ctx.clients ctx.clients
              (λ c d p. p.same_id) each);
    buffers =
        Each-All (IsLinked heap s.taken h.log h.box)
          (IsLinked heap s.taken h.log (tell id note h.box)) (PassedOn id (note_bytes heap id note))
          (λ c d p r. told heap s.taken h.log h.box id note c d r p) s.ctx.clients ctx.clients
          l.buffers each;
    present = present;
    whole = l.whole;
    stored = stored;
  }

  pub connect-Linked :
      (id : ℤ) (ctx : Context) (vec : Bvec)
      → s.stage id ≡ starting
      → client_connected heap id s.ctx ≡ some ctx
      → Linked heap
          (record s { ctx = ctx; stage = put id (reading vec) s.stage })
          (record h { box = tell id arrived h.box })
  unfolding note_bytes pending_of client_connected
  connect-Linked id ctx vec e q =
      told-Linked id arrived ctx (put id (reading vec) s.stage) h.pending
        (announce-some heap finite connected id s.ctx ctx valid_clients q)
        (present-put s.stage h.members id (reading vec)
          (there s.stage h.members id starting e (λ t. ground arith) l.present) l.present)
        (stored-same s.stage h.pending id (reading vec) (ap pending_of e) l.stored)

  pub leave-Linked :
      (id : ℤ) (ctx : Context) (vec : Bvec)
      → s.stage id ≡ reading vec
      → announce heap disconnected id s.ctx ≡ some ctx
      → Linked heap
          (record s { ctx = ctx; stage = put id leaving s.stage })
          (record h { box = tell id departed h.box })
  unfolding note_bytes pending_of
  leave-Linked id ctx vec e q =
      told-Linked id departed ctx (put id leaving s.stage) h.pending
        (announce-some heap finite disconnected id s.ctx ctx valid_clients q)
        (present-put s.stage h.members id leaving
          (there s.stage h.members id (reading vec) e (λ t. ground arith) l.present) l.present)
        (stored-same s.stage h.pending id leaving (ap pending_of e) l.stored)

  pub pass-Linked :
      (id : ℤ) (vec vec' : Bvec) (n : ℕ) (ctx : Context)
      → s.stage id ≡ passing n vec
      → server_broadcast heap id (take n (contents vec)) s.ctx ≡ some ctx
      → Linked heap
          (record s { ctx = ctx; stage = put id (reading vec') s.stage })
          (record h {
            pending = put id none h.pending;
            box = tell id (passed (take n (contents vec))) h.box;
          })
  unfolding note_bytes pending_of
  pass-Linked id vec vec' n ctx e q =
      told-Linked id (passed (take n (contents vec))) ctx (put id (reading vec') s.stage)
        (put id none h.pending)
        (server_broadcast-some heap finite id (take n (contents vec)) s.ctx ctx valid_clients q)
        (present-put s.stage h.members id (reading vec')
          (there s.stage h.members id (passing n vec) e (λ t. ground arith) l.present) l.present)
        (stored-put s.stage h.pending id (reading vec') l.stored)

  pub read-Linked :
      (id : ℤ) (vec vec' : Bvec)
      → s.stage id ≡ reading vec
      → Linked heap (record s { stage = put id (reading vec') s.stage }) h
  unfolding pending_of
  read-Linked id vec vec' e = record {
    counted = l.counted;
    members = l.members;
    buffers = l.buffers;
    present =
        present-put s.stage h.members id (reading vec')
          (there s.stage h.members id (reading vec) e (λ t. ground arith) l.present) l.present;
    whole = l.whole;
    stored = stored-same s.stage h.pending id (reading vec') (ap pending_of e) l.stored;
  }

  pub keep-Linked :
      (id : ℤ) (vec : Bvec) (n : ℕ) (cs : List Client)
      → s.stage id ≡ reading vec
      → each_client (remember heap id (take n (contents vec))) s.ctx.clients ≡ some cs
      → Linked heap
          (record s { ctx = record s.ctx { clients = cs }; stage = put id (passing n vec) s.stage })
          (record h {
            log = put id (h.log id ++ (take n (contents vec) ∷ [])) h.log;
            pending = put id (some (take n (contents vec))) h.pending;
          })
  unfolding pending_of
  keep-Linked id vec n cs e q =
      let xs = take n (contents vec) in
      let each = remember-Each heap finite id xs s.ctx.clients cs valid_clients q in
      record {
        counted = l.counted;
        members =
            l.members
            ∙ sym (
                Each-ids (Remembered id (framed heap id xs)) s.ctx.clients cs (λ c d p. p.same_id)
                  each);
        buffers =
            Each-All (IsLinked heap s.taken h.log h.box)
              (IsLinked heap s.taken (put id (h.log id ++ (xs ∷ [])) h.log) h.box)
              (Remembered id (framed heap id xs))
              (λ c d p r. kept heap s.taken h.log h.box id xs c d r p) s.ctx.clients cs l.buffers
              each;
        present =
            present-put s.stage h.members id (passing n vec)
              (there s.stage h.members id (reading vec) e (λ t. ground arith) l.present) l.present;
        whole = l.whole;
        stored = stored-put s.stage h.pending id (passing n vec) l.stored;
      }
