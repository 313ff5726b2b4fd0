-- ===== src/Balls/Advance/Move/Bounds.antt =====
-- Where a ball can be after the part of `advance_state` that moves it.
use sasd_protocols.Prelude.{
  ◌-◌, ◌≡◌, ℤ, pos, negsuc, ◌≤ℤ◌, false, arith, List, [], ◌∷◌, pos_part, length-set,
}
use sasd_protocols.Balls.Types.{Ball, Event, max_speed, InArena, IsBall}
use sasd_protocols.Balls.Advance.Move.{
  limit, limit_speed, move, outside, react_one, react, steer, accelerate,
}

limit_bounds : (v : ℤ) → (negsuc (max_speed - 1) ≤ℤ limit v) × (limit v ≤ℤ pos max_speed)
unfolding limit
limit_bounds v = ground arith

-- A ball whose speed was limited and that is not outside is in the arena.
pub move-InArena :
    (b : Ball) → outside (move (limit_speed b)) ≡ false → InArena (move (limit_speed b))
unfolding move limit_speed outside
move-InArena b h = ground (arith, limit_bounds b.v_x, limit_bounds b.v_y)

react_one-IsBall : (ev : Event) (b : Ball) → IsBall b → IsBall (react_one ev b)
unfolding react_one
react_one-IsBall ev b v = ground (arith, length-set b.button_states (pos_part ev.button) ev.pressed)

react-IsBall : (evs : List Event) (b : Ball) → IsBall b → IsBall (react evs b)
unfolding react
react-IsBall [] b v = v
react-IsBall (ev ∷ evs) b v = react-IsBall evs (react_one ev b) (react_one-IsBall ev b v)

pub steer-IsBall : (evs : List Event) (b : Ball) → IsBall b → IsBall (steer evs b)
unfolding steer accelerate
steer-IsBall evs b v = ground (arith, react-IsBall evs b v)

pub moved-IsBall : (b : Ball) → IsBall b → IsBall (move (limit_speed b))
unfolding move limit_speed
moved-IsBall b v = ground arith
