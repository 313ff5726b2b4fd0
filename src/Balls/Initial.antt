-- ===== src/Balls/Initial.antt =====
-- `initial_state` of src/balls/balls.c: the balls on a square grid, at rest, nobody connected.
pub mod Laws
use sasd_protocols.Prelude.{
  ℕ, zero, suc, ◌+◌, ◌*◌, ◌/◌, ◌%◌, ◌<◌, Bool, true, false, List, [], ◌∷◌, ℤ, pos, negsuc, ltb,
  replicate,
}
use sasd_protocols.Balls.Types.{Ball, State, n_balls, n_buttons, max_players, arena_size}

-- `while (legion_size * legion_size < N_BALLS) legion_size++;`, the fuel being `N_BALLS` rounds.
legion_loop : ℕ → ℕ → ℕ
legion_loop zero legion_size = legion_size
legion_loop (suc fuel) legion_size = elim (ltb (legion_size * legion_size) n_balls) [
  | true ↦ legion_loop fuel (legion_size + 1)
  | false ↦ legion_size
]

pub legion_size : ℕ
unfolding legion_loop
legion_size = legion_loop n_balls 0

-- Every operand is a small non-negative number, so `int` arithmetic is that of ℕ here.
pub grid_ball : ℕ → Ball
grid_ball i = record {
  p_x = pos ((1 + 2 * (i % legion_size)) * arena_size / (2 * legion_size));
  p_y = pos ((1 + 2 * (i / legion_size)) * arena_size / (2 * legion_size));
  v_x = pos 0;
  v_y = pos 0;
  player = negsuc 0;
  button_states = replicate n_buttons (pos 0);
}

-- The `for` over the balls: `left` balls to place, from index `i` on.
grid_balls : ℕ → ℕ → List Ball
grid_balls zero i = []
grid_balls (suc left) i = grid_ball i ∷ grid_balls left (i + 1)

-- `_lie` is not assigned: `stale` is what the memory of the result holds there.
unfoldable pub initial_state : ℤ → ℤ → State
unfolding grid_balls
initial_state stale frame = record {
  paused = pos 1;
  frame = frame;
  death_count = pos 0;
  scores = replicate max_players (pos 0);
  balls = grid_balls n_balls 0;
  lie = stale;
}
