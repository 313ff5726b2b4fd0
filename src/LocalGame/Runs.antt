-- ===== src/LocalGame/Runs.antt =====
-- The program of src/game.c at concrete inputs.
use sasd_protocols.Prelude.{
  ◌≡◌, List, [], ◌∷◌, ◌++◌, replicate, pos, some, none, true, Returns, arith,
}
use sasd_protocols.Balls.Initial.Laws.{initial_state-IsWellFormed}
use sasd_protocols.Balls.Advance.Alike.{next_state}
use sasd_protocols.Balls.Advance.Total.{IsNext}
use sasd_protocols.Balls.Runs.Insertion.{insertion_sort, insertion_sort-IsQsort}
use sasd_protocols.Rollback.Keys.{
  Input, key, quit, right, other, key_events, event_of, button_of, still_running,
}
use sasd_protocols.LocalGame.{LocalGame, local_start, local_key, local_round}
use sasd_protocols.LocalGame.Laws.{local_round-Returns, local_round-overflow}

abbrev game : LocalGame
game = local_start (pos 7)

abbrev inputs : List Input
inputs = key true right ∷ key true other ∷ quit ∷ []

local_round-Returns_example :
    Returns
      (λ g'.
        (next_state insertion_sort game.stat (game.events ++ key_events local_key inputs)
          ≡ some g'.stat)
        × IsNext game.stat g'.stat
        × (g'.events ≡ [])
        × (g'.running ≡ still_running game.running inputs))
      (local_round insertion_sort inputs game)
unfolding local_start
local_round-Returns_example =
    local_round-Returns insertion_sort-IsQsort inputs game
      (initial_state-IsWellFormed (pos 7) (pos 0)).0 (omega arith) (omega arith)

-- Three players connect, and six keys are used before the first frame.
local_round-overflow_example : local_round insertion_sort (replicate 6 (key true right)) game ≡ none
unfolding local_start key_events event_of button_of
local_round-overflow_example =
    local_round-overflow insertion_sort (replicate 6 (key true right)) game (omega arith)
      (omega arith)
