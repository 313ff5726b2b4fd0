-- ===== src/LocalGame/Laws.antt =====
-- A round of src/game.c is a frame of the game with the events of the keys, if they fit.
use sasd_protocols.Prelude.{
  ℕ, suc, ◌+◌, ◌≤◌, ◌<◌, ◌≡◌, refl, sym, ap, ◌∙◌, List, [], ◌∷◌, ◌++◌, append-nil, append_assoc,
  length, length-append, ℤ, Option, none, some, ltb, lt→ltb, Bool, Bool-cases, inl, inr, false, All,
  Returns, arith,
}
use sasd_protocols.Balls.Types.{Event, IsEvent, IsWellFormed}
use sasd_protocols.Balls.Sorting.{IsQsort}
use sasd_protocols.Balls.Advance.Alike.{next_state}
use sasd_protocols.Balls.Advance.Total.{IsNext, advance_state-Returns}
use sasd_protocols.Rollback.Cells.Laws.{All-append}
use sasd_protocols.Rollback.Keys.{
  Input, quit, key, ignored, button_of, event_of, key_events, still_running,
}
use sasd_protocols.Rollback.Loop.Arrivals.{key_events-IsEvent}
use sasd_protocols.LocalGame.{LocalGame, buffer_size, local_key, put_key, poll, local_round}

-- How many keys were pressed or released.
abbrev pub key_count : List Input → ℕ
key_count [] = 0
key_count (quit ∷ inputs) = key_count inputs
key_count (ignored ∷ inputs) = key_count inputs
key_count (key pressed k ∷ inputs) = suc (key_count inputs)

length-event_of : (pressed : Bool) (o : Option ℤ) → length (event_of local_key pressed o) ≤ 1
unfolding event_of
length-event_of pressed none = omega arith
length-event_of pressed (some b) = omega arith

poll_lem :
    (inputs : List Input) (running : Bool) (events : List Event)
    → length events + key_count inputs ≤ buffer_size
    → poll inputs (running, events)
      ≡ some (still_running running inputs, events ++ key_events local_key inputs)
unfolding poll put_key key_events still_running
poll_lem [] running events room = ap (λ l. some (running, l)) (sym (append-nil events))
poll_lem (quit ∷ inputs) running events room = poll_lem inputs false events room
poll_lem (ignored ∷ inputs) running events room = poll_lem inputs running events room
poll_lem (key pressed k ∷ inputs) running events room =
    let new = event_of local_key pressed (button_of k) in
    rw (lt→ltb (length events) buffer_size (omega arith)) (
      poll_lem inputs running (events ++ new)
        (omega (arith, length-append events new, length-event_of pressed (button_of k)))
      ∙ ap (λ l. some (still_running running inputs, l))
          (append_assoc events new (key_events local_key inputs)))

poll_overflow :
    (inputs : List Input) (running : Bool) (events : List Event)
    → buffer_size < length events + length (key_events local_key inputs)
    → length events ≤ buffer_size
    → poll inputs (running, events) ≡ none
unfolding poll put_key key_events still_running
poll_overflow [] running events over h = absurd (omega arith)
poll_overflow (quit ∷ inputs) running events over h = poll_overflow inputs false events over h
poll_overflow (ignored ∷ inputs) running events over h = poll_overflow inputs running events over h
poll_overflow (key pressed k ∷ inputs) running events over h =
    let new = event_of local_key pressed (button_of k) in
    elim (Bool-cases (ltb (length events) buffer_size)) [
      | inl e ↦
          let lt : length events < buffer_size = ground arith in
          rw e (
            poll_overflow inputs running (events ++ new)
              (omega
                (arith, length-append events new, length-append new (key_events local_key inputs)))
              (omega (arith, lt, length-append events new, length-event_of pressed (button_of k))))
      | inr e ↦ rw e refl
    ]

-- A round in which at most as many keys are used as the array has places left is one frame of the
-- game with the events that waited and those of the known keys, in order; none waits afterwards.
pub local_round-Returns :
    {qsort : (Event → Event → ℤ) → List Event → List Event}
    → IsQsort qsort
    → (inputs : List Input) (g : LocalGame) → IsWellFormed g.stat
    → All IsEvent g.events
    → length g.events + key_count inputs ≤ buffer_size
    → Returns
        (λ g'.
          (next_state qsort g.stat (g.events ++ key_events local_key inputs) ≡ some g'.stat)
          × IsNext g.stat g'.stat
          × (g'.events ≡ [])
          × (g'.running ≡ still_running g.running inputs))
        (local_round qsort inputs g)
unfolding local_round
local_round-Returns q inputs g w valid room =
    let all =
      All-append IsEvent g.events (key_events local_key inputs) valid
        (key_events-IsEvent local_key inputs (omega arith)) in
    let (r, e, (n, _)) =
      advance_state-Returns g.stat (g.events ++ key_events local_key inputs) q all w in
    rw (poll_lem inputs g.running g.events room, e)
      (
        record { running = still_running g.running inputs; stat = r.0; events = [] },
        refl,
        (refl, n, refl, refl),
      )

-- Known keys that do not fit the array are written behind it.
pub local_round-overflow :
    (qsort : (Event → Event → ℤ) → List Event → List Event) (inputs : List Input) (g : LocalGame)
    → buffer_size < length g.events + length (key_events local_key inputs)
    → length g.events ≤ buffer_size
    → local_round qsort inputs g ≡ none
unfolding local_round
local_round-overflow qsort inputs g over h =
    rw (poll_overflow inputs g.running g.events over h) refl
