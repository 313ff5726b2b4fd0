-- ===== src/Balls/Initial/Laws.antt =====
-- The state that a game starts from.
use sasd_protocols.Prelude.{◌≡◌, refl, ℤ, All, arith, true}
use sasd_protocols.Balls.Types.{IsWellFormed, InArena, truthy}
use sasd_protocols.Balls.Initial.{initial_state, grid_balls, grid_ball, legion_size, legion_loop}

-- Whatever the memory held before, the initial state is well-formed, all its balls are in the
-- arena at rest, and it waits for a player to connect.
pub initial_state-IsWellFormed :
    (stale frame : ℤ)
    → IsWellFormed (initial_state stale frame)
      × All InArena (initial_state stale frame).balls
      × (truthy (initial_state stale frame).paused ≡ true)
unfolding initial_state grid_balls grid_ball legion_size legion_loop
initial_state-IsWellFormed stale frame =
    (record { scores_length = refl; balls_length = refl; players = omega arith }, omega arith, refl)
