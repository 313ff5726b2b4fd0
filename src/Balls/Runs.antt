-- ===== src/Balls/Runs.antt =====
-- Concrete runs, and the theorems about src/balls/balls.c at concrete inputs.
pub mod Insertion
use mathlib.Core.List.{Perm}
use mathlib.Core.List.Perm
use sasd_protocols.Prelude.{
  ◌≡◌, refl, ℤ, pos, negsuc, List, [], ◌∷◌, All, true, ◌≤ℤ◌, ◌↔◌, ◌≤◌, Option, some, none, Returns,
  ◌+ℤ◌, ◌-ℤ◌, ◌*ℤ◌, div_ℤ, rem_ℤ, arith,
}
use sasd_protocols.Prelude.Word.{signed, bits}
use sasd_protocols.Balls.Types.{
  Ball, State, Event, IsEvent, IsWellFormed, InArena, truthy, n_buttons,
}
use sasd_protocols.Balls.Collide.{reset_ball}
use sasd_protocols.Balls.Collide.Bounds.{reset_ball-InArena}
use sasd_protocols.Balls.Initial.{initial_state}
use sasd_protocols.Balls.Initial.Laws.{initial_state-IsWellFormed}
use sasd_protocols.Balls.Compare.{compare_events}
use sasd_protocols.Balls.Compare.Rank.{rank, compare_le_iff_rank}
use sasd_protocols.Balls.Advance.{advance_state}
use sasd_protocols.Balls.Advance.Alike.{next_state}
use sasd_protocols.Balls.Advance.Total.{IsNext, advance_state-Returns}
use sasd_protocols.Balls.Advance.Same.{reordered, repeated, through, next_state-SameEvents}
use Insertion.{insertion_sort, insertion_sort-IsQsort}

abbrev start : State
start = initial_state (pos 7) (pos 0)

-- Player 0 connects, and presses the right arrow.
abbrev connect : Event
connect = record {
  frame = pos 9;
  summon_frame = pos 1;
  player = pos 0;
  button = pos n_buttons;
  pressed = pos 1;
}

abbrev right : Event
right = record connect { button = pos 0; summon_frame = pos 2 }

advance_state-Returns_example :
    Returns
      (λ r. IsNext start r.0 × Perm r.1 (right ∷ connect ∷ []))
      (advance_state insertion_sort start (right ∷ connect ∷ []))
advance_state-Returns_example =
    advance_state-Returns start (right ∷ connect ∷ []) insertion_sort-IsQsort (omega arith)
      (initial_state-IsWellFormed (pos 7) (pos 0)).0

-- A ball in a corner, with a seed that is negative.
abbrev cornered : Ball
cornered = record {
  p_x = pos 0;
  p_y = pos 0;
  v_x = pos 10;
  v_y = pos 0;
  player = negsuc 0;
  button_states = pos 0 ∷ pos 0 ∷ pos 0 ∷ pos 0 ∷ [];
}

reset_ball-InArena_example : InArena (reset_ball cornered (negsuc 1234))
reset_ball-InArena_example = reset_ball-InArena cornered (negsuc 1234)

compare_le_iff_rank_example : (compare_events connect right ≤ℤ pos 0) ↔ (rank connect ≤ rank right)
compare_le_iff_rank_example = compare_le_iff_rank connect right (omega arith) (omega arith)

next_state-SameEvents_example :
    next_state insertion_sort start (connect ∷ connect ∷ right ∷ [])
    ≡ next_state insertion_sort start (right ∷ connect ∷ [])
next_state-SameEvents_example =
    next_state-SameEvents start (connect ∷ connect ∷ right ∷ []) (right ∷ connect ∷ [])
      insertion_sort-IsQsort insertion_sort-IsQsort (omega arith)
      (through (repeated connect (right ∷ [])) (reordered (Perm.swap right connect [])))
