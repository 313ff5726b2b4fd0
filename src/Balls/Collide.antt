-- ===== src/Balls/Collide.antt =====
-- `collide_balls` and `reset_ball` of src/balls/balls.c. Positions and speeds are `int32_t`, the
-- differences of positions are widened to `int64_t` before they are multiplied.
pub mod Bounds
use sasd_protocols.Prelude.{
  ℕ, ◌+◌, ◌*◌, ℤ, pos, negsuc, ◌+ℤ◌, ◌-ℤ◌, ◌*ℤ◌, div_ℤ, rem_ℤ, ltb_ℤ, leb_ℤ, Bool, true, false,
  ◌&&◌, if◌then◌else◌,
}
use sasd_protocols.Prelude.Word.{wrap, mod32, mod64}
use sasd_protocols.Balls.Types.{Ball, ball_radious, arena_size}

abbrev pub i32 : ℤ → ℤ
i32 = wrap mod32

abbrev pub i64 : ℤ → ℤ
i64 = wrap mod64

-- What `collide_balls` returns, 0, -1 or 1.
pub data Killed : Type 0 where
  nobody first second : Killed

-- `dx * dx + dy * dy < 4 * BALL_RADIOUS * BALL_RADIOUS`
unfoldable pub touching : ℤ → ℤ → Bool
touching delta_x delta_y =
    ltb_ℤ (i64 (i64 (delta_x *ℤ delta_x) +ℤ i64 (delta_y *ℤ delta_y)))
      (pos (4 * ball_radious * ball_radious))

-- The square of a speed, in `int32_t` arithmetic.
unfoldable pub speed2 : Ball → ℤ
speed2 b = i32 (i32 (b.v_x *ℤ b.v_x) +ℤ i32 (b.v_y *ℤ b.v_y))

-- `delta * (va - vb) >= 0`: the balls approach each other along this axis, or do not move apart.
unfoldable pub approaching : ℤ → ℤ → ℤ → Bool
approaching delta va vb = leb_ℤ (pos 0) (i64 (delta *ℤ i32 (va -ℤ vb)))

bounce_x : ℤ → Ball → Ball → Ball × Ball
bounce_x delta_x a b =
    if approaching delta_x a.v_x b.v_x
    then (record a { v_x = b.v_x }, record b { v_x = a.v_x })
    else (a, b)

bounce_y : ℤ → Ball → Ball → Ball × Ball
bounce_y delta_y a b =
    if approaching delta_y a.v_y b.v_y
    then (record a { v_y = b.v_y }, record b { v_y = a.v_y })
    else (a, b)

bounce : ℤ → ℤ → Ball → Ball → Ball × Ball
unfolding bounce_x bounce_y
bounce delta_x delta_y a b = let (a', b') = bounce_x delta_x a b in bounce_y delta_y a' b'

-- Returns who is killed beside the two balls, which it may make bounce.
unfoldable pub collide_balls : Ball → Ball → Killed × Ball × Ball
unfolding bounce
collide_balls a b =
    let delta_x = i32 (b.p_x -ℤ a.p_x) in
    let delta_y = i32 (b.p_y -ℤ a.p_y) in
    let (a', b') = bounce delta_x delta_y a b in
    if touching delta_x delta_y
    then (if leb_ℤ (pos 0) a.player && leb_ℤ (pos 0) b.player
        then (if ltb_ℤ (speed2 b) (speed2 a) then (Killed.second, a, b) else (Killed.first, a, b))
        else (Killed.nobody, a', b'))
    else (Killed.nobody, a, b)

-- `(3 + k) * ARENA_SIZE / 9` for the remainder `k` of a division by 3.
unfoldable pub reset_coord : ℤ → ℤ
reset_coord k = div_ℤ ((pos 3 +ℤ k) *ℤ pos arena_size) 9

unfoldable pub reset_ball : Ball → ℤ → Ball
reset_ball b seed0 =
    let seed = i32 (seed0 *ℤ pos 11) in
    record b {
      v_x = pos 0;
      v_y = pos 0;
      p_x = reset_coord (rem_ℤ seed 3);
      p_y = reset_coord (rem_ℤ (div_ℤ seed 3) 3);
    }
