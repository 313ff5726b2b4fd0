-- ===== src/Server/Threads/Promises.antt =====
-- What the server keeps towards its clients, whatever the order in which its threads run.
use mathlib.Core.Path.{subst}
use sasd_protocols.Prelude.{
  ◌≡◌, ◌≢◌, ◌⊎◌, inl, inr, sym, ap, List, [], ◌∷◌, ◌++◌, map, All, false, ℤ,
}
use sasd_protocols.Buffer.Types.{Allocator, done}
use sasd_protocols.Bvec.{contents}
use sasd_protocols.Bvec.Success.{IsFinite}
use sasd_protocols.Server.{Client, server_client_shutdown}
use sasd_protocols.Server.Leave.{TakenOut, server_client_shutdown-TakenOut}
use sasd_protocols.Server.Threads.{System, Stage, absent, Reachable}
use sasd_protocols.Server.Threads.Hub.{PacketBytes, Note, from}
use sasd_protocols.Server.Threads.Hub.Repeats.{Delivered}
use sasd_protocols.Server.Threads.Hub.Boxes.{Within, Distinct}
use sasd_protocols.Server.Threads.Hub.Sound.{HubReach-IsSound}
use sasd_protocols.Server.Threads.Accept.{handshake_bytes}
use sasd_protocols.Server.Threads.Link.{log_bytes, box_bytes, pending_of, IsLinked}
use sasd_protocols.Server.Threads.Apart.{apart, All-append}
use sasd_protocols.Server.Threads.Refines.{Reachable-Refines}

abbrev pub Among : Client → List Client → Type 0
Among c [] = ⊥
Among c (d ∷ cs) = (c ≡ d) ⊎ Among c cs

-- What of one client stands in what another one was or will be sent.
pub record HasBeenSent (heap : Allocator) (s : System) (c d : Client) : Type 0 where
  pub log : List PacketBytes
  pub box : List (ℤ × Note)
  pub history : contents c.hbuffer ≡ log_bytes heap c.id log
  pub told : s.taken d.id ++ contents d.sbuffer ≡ handshake_bytes heap d.id ++ box_bytes heap box
  pub sent : s.broken d.id ≡ false → s.wire d.id ≡ s.taken d.id
  pub delivered : Delivered log (pending_of (s.stage c.id)) (from c.id box)

Within-Among : (c : Client) (cs : List Client) → Among c cs → Within c.id (map (λ x. x.id) cs)
Within-Among c [] w = absurd w
Within-Among c (d ∷ cs) (inl e) = inl (ap (λ x. x.id) e)
Within-Among c (d ∷ cs) (inr w) = inr (Within-Among c cs w)

All-Among : (P : Client → Type 0) (c : Client) (cs : List Client) → Among c cs → All P cs → P c
All-Among P c [] w ps = absurd w
All-Among P c (d ∷ cs) (inl e) (p, ps) = subst P (sym e) p
All-Among P c (d ∷ cs) (inr w) (p, ps) = All-Among P c cs w ps

not_any : (id : ℤ) (cs : List Client) → All (λ c. c.id ≢ id) cs → ¬ Within id (map (λ c. c.id) cs)
not_any id [] h w = w
not_any id (c ∷ cs) (n, h) (inl e) = n (sym e)
not_any id (c ∷ cs) (n, h) (inr w) = not_any id cs h w

running : {stage : Stage} {P : Type 0} → (stage ≡ absent) ⊎ P → stage ≢ absent → P
running (inl e) n = absurd (n e)
running (inr p) n = p

module _ (heap : Allocator) (finite : IsFinite heap) where
  Distinct-ids : {s : System} → Reachable heap s → Distinct (map (λ c. c.id) s.ctx.clients)
  Distinct-ids r =
      let (h, reach, l) = Reachable-Refines heap finite r in
      subst (λ ms. Distinct ms) l.members (HubReach-IsSound reach).distinct

  -- A client whose thread runs is in the list, and it is the only one with its number: a shutdown
  -- of the number succeeds, takes one node out of the list, leaves the others in their order, and
  -- leaves none with the number. Whatever the order of the threads' steps, if fewer than
  -- 2 ^ 31 - 1 connections are accepted, and `realloc` fails for sizes from 2 ^ 62 on.
  pub Reachable-shutdown :
      {s : System} (id : ℤ)
      → Reachable heap s
      → s.stage id ≢ absent
      → (cs : List Client) × (server_client_shutdown id s.ctx
          ≡ (done, record s.ctx { clients = cs }))
        × TakenOut id s.ctx.clients cs
        × All (λ c. c.id ≢ id) cs
  Reachable-shutdown {s} id r n =
      let (h, reach, l) = Reachable-Refines heap finite r in
      elim (server_client_shutdown-TakenOut id s.ctx) [
        | inl (f, none_left) ↦ absurd (
            not_any id s.ctx.clients none_left
              (subst (Within id) l.members (running (l.present id) n)))
        | inr (cs, q, t) ↦
            let (before, after) =
              apart t.before t.after t.removed
                (subst (λ xs. Distinct (map (λ c. c.id) xs)) t.was (Distinct-ids r)) in
            (
              cs,
              q,
              t,
              subst (All (λ c. c.id ≢ id)) (sym t.becomes) (
                  subst (λ i. All (λ c. c.id ≢ i) (t.before ++ t.after)) t.found
                    (All-append (λ c. c.id ≢ t.removed.id) t.before t.after before after)),
            )
      ]

  -- What was taken out of a client's send buffer, with what waits in it, is the handshake and a
  -- sequence of packets and notices, each with its sender; all that was taken out went out to the
  -- client, unless a `send` to it has failed. Of any other client that is there, that sequence has
  -- all packets of that client's history, in order, each at least once, with repetitions next to
  -- each other only; the last one may be missing while the sender's thread has stored it and not
  -- yet passed it on. Whatever the order of the threads' steps, if fewer than 2 ^ 31 - 1
  -- connections are accepted, and `realloc` fails for sizes from 2 ^ 62 on.
  pub Reachable-HasBeenSent :
      {s : System} (c d : Client)
      → Reachable heap s
      → Among c s.ctx.clients
      → Among d s.ctx.clients
      → c.id ≢ d.id
      → HasBeenSent heap s c d
  Reachable-HasBeenSent {s} c d r w v n =
      let (h, reach, l) = Reachable-Refines heap finite r in
      let within : (x : Client) → Among x s.ctx.clients → Within x.id h.members =
        λ x m. subst (Within x.id) (sym l.members) (Within-Among x s.ctx.clients m) in
      record {
        log = h.log c.id;
        box = h.box d.id;
        history =
            (All-Among (IsLinked heap s.taken h.log h.box) c s.ctx.clients w l.buffers).history;
        told = (All-Among (IsLinked heap s.taken h.log h.box) d s.ctx.clients v l.buffers).sent;
        sent = l.whole d.id;
        delivered =
            subst (λ p. Delivered (h.log c.id) p (from c.id (h.box d.id))) (l.stored c.id)
              ((HubReach-IsSound reach).delivered c.id d.id (within c w) (within d v) n);
      }
