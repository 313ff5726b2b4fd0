-- ===== src/Rollback/Cells.antt =====
-- `ev_vec_t` of src/game_timewarp.c and src/game_fasteventordering.c, and the vectors of pointers to
-- such blocks.
pub mod Laws
use sasd_protocols.Prelude.{
  ℕ, ◌+◌, ◌*◌, ◌/◌, List, [], ◌∷◌, ◌++◌, length, Option, none, some, ◌>>=◌, ◌==◌, ◌||◌,
  if◌then◌else◌, Bool, true, false, ℤ,
}
use sasd_protocols.Prelude.Word.{bits, mod64}
use sasd_protocols.Buffer.Types.{Allocator, Realloc, null, same, moved}
use sasd_protocols.Balls.Types.{Event}
use sasd_protocols.Vec.Slots.{Slots, slots_get, slots_set, assign}

-- `evs` holds the events that were pushed: `wptr` is their number.
pub record EvVec : Type 0 where
  pub count : ℕ
  pub evs : List Event

-- `sizeof(event)`, and the size of a block with room for `count` events
abbrev pub event_size : ℕ
event_size = 16

abbrev pub block_size : ℕ → ℕ
block_size count = 8 + count * event_size

-- An element of a vector of `ev_vec_t`: the null pointer, the block that it points to, or the
-- address of a block that `realloc` has moved away. Each block has one element that points to it,
-- so the block is kept there.
pub data Cell : Type 0 where
  absent : Cell
  block : EvVec → Cell
  dangling : Cell

-- An `int` as an index, which is a `size_t`.
abbrev pub index : ℤ → ℕ
index z = bits mod64 z

-- The block after `realloc`, with the event at its end; and did it move?
pub push_grown : EvVec → Event → Realloc → Option (EvVec × Bool)
push_grown v ev null = none
push_grown v ev same =
    some (record { count = v.count + v.count / 2; evs = v.evs ++ (ev ∷ []) }, false)
push_grown v ev moved =
    some (record { count = v.count + v.count / 2; evs = v.evs ++ (ev ∷ []) }, true)

module _ (heap : Allocator) where
  pub ev_vec_create : Option EvVec
  ev_vec_create = if heap.malloc (block_size 8) then some (record { count = 8; evs = [] }) else none

  -- The caller's variable holds the block that results. The `Bool` tells whether `realloc` moved
  -- the block, so that other pointers to it dangle.
  pub ev_vec_push : EvVec → Event → Option (EvVec × Bool)
  ev_vec_push v ev =
      if length v.evs == v.count
      then push_grown v ev (heap.realloc (block_size (v.count + v.count / 2)))
      else some (record v { evs = v.evs ++ (ev ∷ []) }, false)

  -- Pushes in a row through one variable; has the block moved?
  pub push_all : EvVec → List Event → Option (EvVec × Bool)
  push_all v [] = some (v, false)
  push_all v (ev ∷ evs) = ev_vec_push v ev >>= λ (v', moved_now).
      push_all v' evs >>= λ (v'', moved_later). some (v'', moved_now || moved_later)

  -- `if (vec_get(vec, i, &ev_vec) == -1 || ev_vec == 0)`, then a new block is set. The block is
  -- read in what follows, which is undefined for an address that dangles.
  pub open_at : Slots Cell → ℕ → Option Cell → Option (EvVec × Slots Cell)
  open_at vec i none =
      ev_vec_create >>= λ v. slots_set heap vec i (block v) >>= λ vec'. some (v, vec')
  open_at vec i (some absent) =
      ev_vec_create >>= λ v. slots_set heap vec i (block v) >>= λ vec'. some (v, vec')
  open_at vec i (some (block v)) = some (v, vec)
  open_at vec i (some dangling) = none

  -- Events are pushed through the local variable: what it points to in the end, and the vector.
  pub push_opened : ℕ → List Event → EvVec × Slots Cell → Option (EvVec × Slots Cell)
  push_opened i evs (v, vec) = push_all v evs >>= λ (v', has_moved).
      some (v', assign vec i (if has_moved then dangling else block v'))

  pub add_events : Slots Cell → ℕ → List Event → Option (EvVec × Slots Cell)
  add_events vec i evs = open_at vec i (slots_get vec i) >>= push_opened i evs
