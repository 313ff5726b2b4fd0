-- ===== src/Balls/Collide/Bounds.antt =====
-- Where balls can be after a collision or a reset.
use sasd_protocols.Prelude.{◌≢◌, ℤ, pos, negsuc, ◌≤ℤ◌, div_ℤ, rem_ℤ, ◌+ℤ◌, ◌*ℤ◌, arith}
use sasd_protocols.Balls.Types.{Ball, InArena, IsBall}
use sasd_protocols.Balls.Collide.{
  Killed, i32, collide_balls, bounce_x, bounce_y, reset_coord, reset_ball,
}

rem_bounds : (z : ℤ) → (negsuc 1 ≤ℤ rem_ℤ z 3) × (rem_ℤ z 3 ≤ℤ pos 2)
unfolding rem_ℤ
rem_bounds (pos n) = ground arith
rem_bounds (negsuc n) = ground arith

reset_coord_bounds :
    (k : ℤ) → negsuc 1 ≤ℤ k → k ≤ℤ pos 2 → (pos 0 ≤ℤ reset_coord k) × (reset_coord k ≤ℤ pos 2999)
unfolding reset_coord div_ℤ ◌+ℤ◌ ◌*ℤ◌
reset_coord_bounds k lo hi = ground arith

reset_coord_of_rem :
    (z : ℤ) → (pos 0 ≤ℤ reset_coord (rem_ℤ z 3)) × (reset_coord (rem_ℤ z 3) ≤ℤ pos 2999)
reset_coord_of_rem z = let (lo, hi) = rem_bounds z in reset_coord_bounds (rem_ℤ z 3) lo hi

-- Whatever the death count, wrapped or not, the ball is put back into the arena, at rest.
pub reset_ball-InArena : (b : Ball) (seed : ℤ) → InArena (reset_ball b seed)
unfolding reset_ball
reset_ball-InArena b seed = ground (
  arith,
  reset_coord_of_rem (i32 (seed *ℤ pos 11)),
  reset_coord_of_rem (div_ℤ (i32 (seed *ℤ pos 11)) 3),
)

pub reset_ball-IsBall : (b : Ball) (seed : ℤ) → IsBall b → IsBall (reset_ball b seed)
unfolding reset_ball
reset_ball-IsBall b seed v = ground arith

-- A collision moves no ball, and exchanges speeds at most.
pub collide-InArena :
    (a b : Ball)
    → InArena a
    → InArena b
    → InArena (collide_balls a b).1 × InArena (collide_balls a b).2
unfolding collide_balls bounce_x bounce_y
collide-InArena a b u v = ground arith

pub collide-IsBall :
    (a b : Ball) → IsBall a → IsBall b → IsBall (collide_balls a b).1 × IsBall (collide_balls a b).2
unfolding collide_balls bounce_x bounce_y
collide-IsBall a b u v = ground arith

-- Only balls of two players kill one another.
pub killed_players :
    (a b : Ball)
    → (collide_balls a b).0 ≢ Killed.nobody
    → (pos 0 ≤ℤ (collide_balls a b).1.player) × (pos 0 ≤ℤ (collide_balls a b).2.player)
unfolding collide_balls
killed_players a b h = ground arith
