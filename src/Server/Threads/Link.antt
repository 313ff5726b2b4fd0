-- ===== src/Server/Threads/Link.antt =====
-- How the buffers of src/server.c stand for what the hub keeps: a history for the packets that its
-- client has sent, and the bytes that were taken out of a send buffer, with those in it, for what was told.
use sasd_protocols.Prelude.{
  ℕ, ◌≡◌, ◌⊎◌, refl, sym, ap, ◌∙◌, List, [], ◌∷◌, ◌++◌, map, All, append_assoc, append-nil, Option,
  none, some, false, take, ℤ, pos,
}
use sasd_protocols.Buffer.Types.{Allocator}
use sasd_protocols.Bvec.{contents}
use sasd_protocols.Packets.Types.{connected, disconnected}
use sasd_protocols.Server.{Client}
use sasd_protocols.Server.Threads.{System, Stage, starting, reading, passing, leaving, absent}
use sasd_protocols.Server.Threads.Hub.{
  PacketBytes, Note, arrived, departed, passed, Hub, introductions,
}
use sasd_protocols.Server.Threads.Hub.Boxes.{Within}
use sasd_protocols.Server.Threads.Bytes.{framed}
use sasd_protocols.Server.Threads.Handlers.{IsClient, announced, introduction}
use sasd_protocols.Server.Threads.Accept.{handshake_bytes}

unfoldable pub note_bytes : Allocator → ℤ → Note → List ℕ
note_bytes heap c arrived = announced heap connected c
note_bytes heap c departed = announced heap disconnected c
note_bytes heap c (passed xs) = framed heap c xs

unfoldable pub log_bytes : Allocator → ℤ → List PacketBytes → List ℕ
log_bytes heap c [] = []
log_bytes heap c (xs ∷ log) = framed heap c xs ++ log_bytes heap c log

pub box_bytes : Allocator → List (ℤ × Note) → List ℕ
box_bytes heap [] = []
box_bytes heap ((c, note) ∷ b) = note_bytes heap c note ++ box_bytes heap b

-- The packet that a thread has stored and not yet passed on.
unfoldable pub pending_of : Stage → Option PacketBytes
pending_of starting = none
pending_of (reading vec) = none
pending_of (passing n vec) = some (take n (contents vec))
pending_of leaving = none
pending_of absent = none

pub record IsLinked (heap : Allocator) (taken : ℤ → List ℕ) (log : ℤ → List PacketBytes)
    (box : ℤ → List (ℤ × Note)) (c : Client) : Type 0 where
  pub valid : IsClient c
  pub history : contents c.hbuffer ≡ log_bytes heap c.id (log c.id)
  pub sent :
      taken c.id ++ contents c.sbuffer ≡ handshake_bytes heap c.id ++ box_bytes heap (box c.id)

pub record Linked (heap : Allocator) (s : System) (h : Hub) : Type 0 where
  pub counted : s.ctx.client_count ≡ pos h.given
  pub members : h.members ≡ map (λ c. c.id) s.ctx.clients
  pub buffers : All (IsLinked heap s.taken h.log h.box) s.ctx.clients
  pub present : (id : ℤ) → (s.stage id ≡ absent) ⊎ Within id h.members
  pub whole : (id : ℤ) → s.broken id ≡ false → s.wire id ≡ s.taken id
  pub stored : (id : ℤ) → h.pending id ≡ pending_of (s.stage id)

module _ (heap : Allocator) where
  pub log_bytes-append :
      (c : ℤ) (l r : List PacketBytes)
      → log_bytes heap c (l ++ r) ≡ log_bytes heap c l ++ log_bytes heap c r
  unfolding log_bytes
  log_bytes-append c [] r = refl
  log_bytes-append c (xs ∷ l) r =
      ap (λ b. framed heap c xs ++ b) (log_bytes-append c l r)
      ∙ sym (append_assoc (framed heap c xs) (log_bytes heap c l) (log_bytes heap c r))

  pub log_bytes-snoc :
      (c : ℤ) (l : List PacketBytes) (xs : PacketBytes)
      → log_bytes heap c (l ++ (xs ∷ [])) ≡ log_bytes heap c l ++ framed heap c xs
  unfolding log_bytes
  log_bytes-snoc c l xs =
      log_bytes-append c l (xs ∷ [])
      ∙ ap (λ b. log_bytes heap c l ++ b) (append-nil (framed heap c xs))

  pub box_bytes-append :
      (b d : List (ℤ × Note)) → box_bytes heap (b ++ d) ≡ box_bytes heap b ++ box_bytes heap d
  unfolding box_bytes
  box_bytes-append [] d = refl
  box_bytes-append ((c, note) ∷ b) d =
      ap (λ z. note_bytes heap c note ++ z) (box_bytes-append b d)
      ∙ sym (append_assoc (note_bytes heap c note) (box_bytes heap b) (box_bytes heap d))

  pub box_bytes-snoc :
      (b : List (ℤ × Note)) (c : ℤ) (note : Note)
      → box_bytes heap (b ++ ((c, note) ∷ [])) ≡ box_bytes heap b ++ note_bytes heap c note
  unfolding box_bytes
  box_bytes-snoc b c note =
      box_bytes-append b ((c, note) ∷ [])
      ∙ ap (λ z. box_bytes heap b ++ z) (append-nil (note_bytes heap c note))

  box_bytes-log :
      (c : ℤ) (log : List PacketBytes)
      → box_bytes heap (map (λ xs. (c, passed xs)) log) ≡ log_bytes heap c log
  unfolding box_bytes log_bytes note_bytes
  box_bytes-log c [] = refl
  box_bytes-log c (xs ∷ log) = ap (λ z. framed heap c xs ++ z) (box_bytes-log c log)

  -- The bytes that introduce the clients are those of the hub's introductions.
  pub box_bytes-introductions :
      (taken : ℤ → List ℕ) (log : ℤ → List PacketBytes) (box : ℤ → List (ℤ × Note))
      (cs : List Client)
      → All (IsLinked heap taken log box) cs
      → box_bytes heap (introductions (map (λ c. c.id) cs) log) ≡ introduction heap cs
  unfolding box_bytes note_bytes introductions introduction
  box_bytes-introductions taken log box [] ps = refl
  box_bytes-introductions taken log box (c ∷ cs) (p, ps) =
      ap (λ z. announced heap connected c.id ++ z)
        (box_bytes-append (map (λ xs. (c.id, passed xs)) (log c.id))
            (introductions (map (λ c. c.id) cs) log)
          ∙ ap (λ z. z ++ box_bytes heap (introductions (map (λ c. c.id) cs) log))
              (box_bytes-log c.id (log c.id) ∙ sym p.history)
          ∙ ap (λ z. contents c.hbuffer ++ z) (box_bytes-introductions taken log box cs ps))
