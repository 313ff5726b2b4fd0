-- ===== src/Recvpool/Delivery.antt =====
-- What the thread of src/recvpool.c delivers.
use sasd_protocols.Prelude.{
  Bool, ℕ, zero, suc, ◌+◌, ◌/◌, ◌^◌, ◌≤◌, ◌<◌, ◌≡◌, refl, sym, ap, ◌∙◌, List, [], ◌∷◌, ◌++◌, map,
  length, length-append, drop, take-append_length, drop-append_length, append_assoc, append-nil,
  All, some, le→leb, lt→leb_false, lt→ltb, le→ltb_false, true, ℤ, pos, arith,
}
use sasd_protocols.Prelude.Word.{InWidth, mod32, mod64}
use sasd_protocols.Buffer.Types.{Handle, live, Allocator}
use sasd_protocols.Buffer.Push.{int16_bytes, int32_bytes, char_bytes}
use sasd_protocols.Buffer.Push.Fits.{holding, buffer_from_data-holding}
use sasd_protocols.Packets.Serialize.Whole.{Grants}
use sasd_protocols.Bvec.{contents, bv_shift}
use sasd_protocols.Bvec.Shift.{bv_shift-contents}
use sasd_protocols.Bvec.Laws.{IsBvec, Reallocs, grown_size, bv_append-Appended, length-contents}
use sasd_protocols.Framing.{ended, running}
use sasd_protocols.Framing.Frames.{IsFrame, joined, read_size-frame, read_size-int16, bits_size}
use sasd_protocols.Packets.Deserialize.RoundTrip
use sasd_protocols.Packets.Deserialize.{Memory}
use sasd_protocols.Packets.Types.{Payload}
use sasd_protocols.Packets.Layout.{payload_bytes, tag_of, packet_size, IsSent}
use sasd_protocols.Packets.Deserialize.Whole.{
  packet_size_bounds, relayed_bytes, relayed-Reads, Reads-whole,
}
use sasd_protocols.Recvpool.{
  nothing, Queue, Pool, pqueue_push, pqueue_pop, frame, frames, appended, received, retrieved,
  packet, retrieve_node, recvpool_retrieve,
}

-- The buffer that a node gets.
abbrev pub node_of : List ℕ → Handle
node_of xs = live (holding (length xs) xs)

module _ (heap : Allocator) (grants : Grants heap) where
  push_lem : (q : Queue) (xs : List ℕ) → pqueue_push heap q xs ≡ some (q ++ (node_of xs ∷ []))
  unfolding pqueue_push
  push_lem q xs = rw (grants 16, buffer_from_data-holding heap xs (grants (length xs))) refl

  frame_lem :
      (pool : Pool) (xs rest : List ℕ)
      → IsBvec pool.vec
      → IsFrame xs
      → contents pool.vec ≡ xs ++ rest
      → frame heap pool
        ≡ some (record {
          vec = bv_shift (length xs) pool.vec;
          pqueue = pool.pqueue ++ (node_of xs ∷ []);
        })
  unfolding frame
  frame_lem pool xs rest v f e =
      let len : length (xs ++ rest) ≡ pool.vec.wptr =
        ap length (sym e) ∙ length-contents pool.vec v in
      let small : length (xs ++ rest) < mod64 =
        omega (arith, v.written, v.inside, v.block, v.small) in
      let fits : length xs ≤ pool.vec.wptr = omega (arith, length-append xs rest) in
      rw
        (
          e,
          read_size-frame heap xs rest grants f small,
          bits_size (length xs) (omega (arith, f.short)),
          take-append_length xs rest,
          push_lem pool.pqueue xs,
          le→leb (length xs) pool.vec.wptr fits,
        )
        refl

  -- What is left when the frames are in the queue.
  pub record Delivered (pool : Pool) (xss : List (List ℕ)) (tail : List ℕ) (next : Pool)
      : Type 0 where
    pub valid : IsBvec next.vec
    pub tail_kept : contents next.vec ≡ tail
    pub queued : next.pqueue ≡ pool.pqueue ++ map node_of xss

  frames-Delivered :
      (fuel : ℕ) (pool : Pool) (xss : List (List ℕ)) (tail : List ℕ)
      → IsBvec pool.vec
      → All IsFrame xss
      → contents pool.vec ≡ joined xss ++ tail
      → length tail ≤ 2
      → length xss < fuel
      → (next : Pool) × (frames heap fuel pool ≡ ended next) × Delivered pool xss tail next
  unfolding frames
  frames-Delivered zero pool xss tail v fs e short enough = absurd (omega arith)
  frames-Delivered (suc fuel) pool [] tail v fs e short enough =
      let len : length tail ≡ pool.vec.wptr = ap length (sym e) ∙ length-contents pool.vec v in
      rw (le→ltb_false 2 pool.vec.wptr (omega arith))
        (pool, refl, record { valid = v; tail_kept = e; queued = sym (append-nil pool.pqueue) })
  frames-Delivered (suc fuel) pool (xs ∷ xss) tail v (f, fs) e short enough =
      let rest = joined xss ++ tail in
      let e' : contents pool.vec ≡ xs ++ rest = e ∙ append_assoc xs (joined xss) tail in
      let len : length (xs ++ rest) ≡ pool.vec.wptr =
        ap length (sym e') ∙ length-contents pool.vec v in
      let fits : length xs ≤ pool.vec.wptr = omega (arith, length-append xs rest) in
      let (v', kept) = bv_shift-contents (length xs) pool.vec v fits in
      let after : Pool = record {
        vec = bv_shift (length xs) pool.vec;
        pqueue = pool.pqueue ++ (node_of xs ∷ []);
      } in
      let (next, run, d) =
        frames-Delivered fuel after xss tail v' fs
          (kept ∙ ap (drop (length xs)) e' ∙ drop-append_length xs rest) short (omega arith) in
      rw (lt→ltb 2 pool.vec.wptr (omega (arith, f.long)), frame_lem pool xs rest v f e')
        (
          next,
          run,
          record {
            valid = d.valid;
            tail_kept = d.tail_kept;
            queued = d.queued ∙ append_assoc pool.pqueue (node_of xs ∷ []) (map node_of xss);
          },
        )

  -- Bytes that complete whole packets, with at most two bytes of the next: the loop ends, and the
  -- queue has got a buffer for each packet, in order. The two bytes are kept for the next call.
  -- Memory does not run out, and the accumulator has room for the bytes after growing once.
  pub received-Delivered :
      (fuel : ℕ) (pool : Pool) (data_read : List ℕ) (xss : List (List ℕ)) (tail : List ℕ)
      → IsBvec pool.vec
      → Reallocs heap
      → pool.vec.size + pool.vec.size / 2 < 2 ^ 62
      → pool.vec.wptr + length data_read ≤ grown_size pool.vec
      → All IsFrame xss
      → contents pool.vec ++ data_read ≡ joined xss ++ tail
      → length tail ≤ 2
      → length xss < fuel
      → (next : Pool) × (received heap fuel pool data_read ≡ ended next)
        × Delivered pool xss tail next
  unfolding received appended
  received-Delivered fuel pool data_read xss tail v r small room fs e short enough =
      let (vec, run, a) = bv_append-Appended heap pool.vec data_read v r small room in
      let (next, ends, d) =
        frames-Delivered fuel (record pool { vec = vec }) xss tail a.valid fs (a.appended ∙ e) short
          enough in
      rw (received, run)
        (next, ends, record { valid = d.valid; tail_kept = d.tail_kept; queued = d.queued })

  -- A packet of which more than two bytes, but not all, have come: the loop turns for ever on the
  -- same state, so the thread never calls `recv` again and the rest of the packet is never read.
  pub frames-stuck :
      (fuel n : ℕ) (pool : Pool) (rest : List ℕ)
      → IsBvec pool.vec
      → contents pool.vec ≡ int16_bytes (pos n) ++ rest
      → 1 ≤ length rest
      → 2 + length rest < n
      → n < 2 ^ 15
      → frames heap fuel pool ≡ running pool
  unfolding frames frame
  frames-stuck zero n pool rest v e some_rest partial small = refl
  frames-stuck (suc fuel) n pool rest v e some_rest partial small =
      let len : length (int16_bytes (pos n) ++ rest) ≡ pool.vec.wptr =
        ap length (sym e) ∙ length-contents pool.vec v in
      rw
        (
          lt→ltb 2 pool.vec.wptr (omega arith),
          e,
          read_size-int16 heap (pos n) rest grants (omega arith, omega arith) (omega arith),
          bits_size n (omega arith),
          lt→leb_false n pool.vec.wptr (omega arith),
        )
        (frames-stuck fuel n pool rest v e some_rest partial small)

pub relayed-IsFrame : (id : ℤ) (p : Payload) → IsSent p → IsFrame (relayed_bytes id p)
relayed-IsFrame id p v = record {
  body = int32_bytes id ++ (char_bytes (tag_of p) ++ payload_bytes p);
  sized =
      ap
        (λ n. int16_bytes (pos n) ++ (int32_bytes id ++ (char_bytes (tag_of p) ++ payload_bytes p)))
        (omega arith);
  long = omega arith;
  short = omega (arith, packet_size_bounds p v);
}

-- The oldest node of the queue, if it holds a payload as the server relays it, comes out of
-- `recvpool_retrieve` as the packet with its sender, and leaves the queue.
pub recvpool_retrieve-relayed :
    (memory : Memory) (id : ℤ) (p : Payload) (q : Queue)
    → IsSent p
    → InWidth mod32 id
    → recvpool_retrieve memory true (node_of (relayed_bytes id p) ∷ q)
      ≡ packet
          (record {
            size = pos (packet_size p + 4);
            sender_id = id;
            payload = RoundTrip.received memory p;
          })
          q
unfolding recvpool_retrieve retrieve_node retrieved pqueue_pop
recvpool_retrieve-relayed memory id p q v w =
    ap (λ r. retrieved r q)
      (Reads-whole (relayed-Reads memory p v id w) (omega (arith, packet_size_bounds p v)))

pub recvpool_retrieve-empty :
    (memory : Memory) (parse : Bool) → recvpool_retrieve memory parse [] ≡ nothing []
unfolding recvpool_retrieve pqueue_pop
recvpool_retrieve-empty memory parse = refl
