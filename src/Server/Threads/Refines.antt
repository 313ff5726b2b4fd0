-- ===== src/Server/Threads/Refines.antt =====
-- The threads of src/server.c do what the hub does, whatever the order of their steps.
use mathlib.Core.Path.{subst}
use sasd_protocols.Prelude.{
  suc, ◌^◌, ◌<◌, ◌≡◌, ◌≢◌, inl, inr, refl, sym, ap, ◌∙◌, [], ◌∷◌, ◌++◌, map, none, some, true,
  false, take, pos, arith,
}
use sasd_protocols.Prelude.Word.{bits, mod64}
use sasd_protocols.Buffer.Types.{Allocator, done, failed}
use sasd_protocols.Bvec.{contents, bv_shift}
use sasd_protocols.Bvec.Success.{IsFinite}
use sasd_protocols.Server.{server_init, client_flush}
use sasd_protocols.Server.Leave.{server_client_shutdown-TakenOut}
use sasd_protocols.Server.Threads.{
  System, accept, connect, read, keep, pass, flush, flush_failed, leave, remove, here, next,
  starting, reading, passing, leaving, absent, ServerStep, Reachable, server_started,
}
use sasd_protocols.Server.Threads.Hub
use sasd_protocols.Server.Threads.Hub.{
  PacketBytes, Note, arrived, departed, passed, Hub, HubReach, IsGiven, put, tell, empty_hub,
  joined, join, arrive, depart, HubStep,
}
use sasd_protocols.Server.Threads.Hub.Sound.{HubReach-IsSound}
use sasd_protocols.Server.Threads.Moves.{
  connect-Linked, leave-Linked, pass-Linked, read-Linked, keep-Linked, there,
}
use sasd_protocols.Server.Threads.Members.{flush-Linked, flush-whole, flush-failed, remove-Linked}
use sasd_protocols.Server.Threads.Joins.{accept-Linked}
use sasd_protocols.Server.Threads.Link.{pending_of, Linked}

-- A system is that of a hub that can come about.
abbrev pub Refines : Allocator → System → Type 0
Refines heap s = (h : Hub) × HubReach h × Linked heap s h

not_done : failed ≢ done
not_done e = ground arith

module _ (heap : Allocator) (finite : IsFinite heap) where
  started-Refines : Refines heap server_started
  unfolding server_init pending_of
  started-Refines = (
    empty_hub,
    Hub.here,
    record {
      counted = refl;
      members = refl;
      buffers = tt;
      present = λ id. inl refl;
      whole = λ id ok. refl;
      stored = λ id. refl;
    },
  )

  follow :
      (s t : System) (h h' : Hub)
      → HubReach h
      → HubStep h h'
      → Linked heap s h'
      → t ≡ s
      → Refines heap t
  follow s t h h' r st l e = (h', Hub.next r st, subst (λ u. Linked heap u h') (sym e) l)

  step-Refines : (s t : System) → ServerStep heap s t → Refines heap s → Refines heap t
  unfolding pending_of
  step-Refines s t (accept n ctx c le q e) (h, r, l) =
      let m : n ≡ h.given = (let z = sym c ∙ l.counted in ground arith) in
      follow
        (record {
          ctx = ctx;
          stage = put (pos h.given) starting s.stage;
          wire = put (pos h.given) [] s.wire;
          taken = put (pos h.given) [] s.taken;
          broken = put (pos h.given) false s.broken;
        })
        t h (joined h) r (join refl)
        (accept-Linked heap finite s h (HubReach-IsSound r) l ctx (subst (λ k. suc k < 2 ^ 31) m le)
          q)
        (e
          ∙ ap
              (λ k. record {
                ctx = ctx;
                stage = put (pos k) starting s.stage;
                wire = put (pos k) [] s.wire;
                taken = put (pos k) [] s.taken;
                broken = put (pos k) false s.broken;
              })
              m)
  step-Refines s t (connect id ctx vec e v q o) (h, r, l) =
      follow (record s { ctx = ctx; stage = put id (reading vec) s.stage }) t h
        (record h { box = tell id arrived h.box }) r (arrive id refl)
        (connect-Linked heap finite s h l id ctx vec e q) o
  step-Refines s t (read id vec vec' xs e small len q o) (h, r, l) =
      (h, r, subst (λ u. Linked heap u h) (sym o) (read-Linked heap finite s h l id vec vec' e))
  step-Refines s t (keep id vec size cs e two q le k o) (h, r, l) =
      let n = bits mod64 size in
      let xs = take n (contents vec) in
      follow
        (record s { ctx = record s.ctx { clients = cs }; stage = put id (passing n vec) s.stage }) t
        h
        (record h {
          log = put id (h.log id ++ (xs ∷ [])) h.log;
          pending = put id (some xs) h.pending;
        })
        r (Hub.keep id xs (l.stored id ∙ ap pending_of e) refl)
        (keep-Linked heap finite s h l id vec n cs e k) o
  step-Refines s t (pass id vec n ctx e q o) (h, r, l) =
      let xs = take n (contents vec) in
      follow (record s { ctx = ctx; stage = put id (reading (bv_shift n vec)) s.stage }) t h
        (record h { pending = put id none h.pending; box = tell id (passed xs) h.box }) r
        (Hub.pass id xs
          ((HubReach-IsSound r).known id
            (there s.stage h.members id (passing n vec) e (λ z. ground arith) l.present))
          (l.stored id ∙ ap pending_of e) refl)
        (pass-Linked heap finite s h l id vec (bv_shift n vec) n ctx e q) o
  step-Refines s t (flush vec results before after c e small k ps le o) (h, r, l) = (
    h,
    r,
    subst (λ u. Linked heap u h) (sym o)
        (flush-Linked heap s h (HubReach-IsSound r) l results before after c k
          (put c.id (s.wire c.id ++ (client_flush results c).0) s.wire) s.broken
          (flush-whole heap s h (HubReach-IsSound r) l results c ps le)),
  )
  step-Refines s t (flush_failed vec results before after c e small k o) (h, r, l) = (
    h,
    r,
    subst (λ u. Linked heap u h) (sym o)
        (flush-Linked heap s h (HubReach-IsSound r) l results before after c k
          (put c.id (s.wire c.id ++ (client_flush results c).0) s.wire) (put c.id true s.broken)
          (flush-failed heap s h (HubReach-IsSound r) l results c)),
  )
  step-Refines s t (leave id vec ctx e small q o) (h, r, l) =
      follow (record s { ctx = ctx; stage = put id leaving s.stage }) t h
        (record h { box = tell id departed h.box }) r (depart id refl)
        (leave-Linked heap finite s h l id ctx vec e q) o
  step-Refines s t (remove id ctx e q o) (h, r, l) =
      elim (server_client_shutdown-TakenOut id s.ctx) [
        | inl (f, none_left) ↦ absurd (not_done (ap (λ p. p.0) (sym f ∙ q)))
        | inr (cs, f, k) ↦
            let (was, linked) = remove-Linked heap s h (HubReach-IsSound r) l id cs e k in
            follow (record s { ctx = record s.ctx { clients = cs }; stage = put id absent s.stage })
              t h (record h { members = map (λ x. x.id) k.before ++ map (λ x. x.id) k.after }) r
              (Hub.part (map (λ x. x.id) k.before) (map (λ x. x.id) k.after) k.removed.id was refl)
              linked
              (o
                ∙ ap (λ c. record s { ctx = c; stage = put id absent s.stage })
                    (sym (ap (λ p. p.1) (sym f ∙ q))))
      ]

  -- Whatever steps the threads make, in any order, the state of the server is that of a hub that
  -- can come about: its list of clients is that of the members, each history stands for what its
  -- client has sent, and what was taken out of a send buffer, with what is in it, stands for the
  -- handshake and what its client was told. Fewer than 2 ^ 31 - 1 connections are accepted, and
  -- `realloc` fails for sizes from 2 ^ 62 on.
  pub Reachable-Refines : {s : System} → Reachable heap s → Refines heap s
  Reachable-Refines here = started-Refines
  Reachable-Refines (next {s} {t} r st) = step-Refines s t st (Reachable-Refines r)
