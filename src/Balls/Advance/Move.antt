-- ===== src/Balls/Advance/Move.antt =====
-- The part of `advance_state` that moves one ball: lines 106 to 157 of src/balls/balls.c.
pub mod Bounds
use sasd_protocols.Prelude.{
  ℕ, ◌*◌, ◌/◌, ◌-◌, ℤ, pos, negsuc, pos_part, ◌+ℤ◌, ◌-ℤ◌, leb_ℤ, ltb_ℤ, eqb_ℤ, Bool, ◌&&◌, ◌||◌,
  List, [], ◌∷◌, set, get_or, if◌then◌else◌,
}
use sasd_protocols.Balls.Types.{Ball, Event, n_buttons, accel, max_speed, arena_size, truthy}
use sasd_protocols.Balls.Collide.{i32}

-- One event of the player that steers the ball sets the state of one button.
unfoldable pub react_one : Event → Ball → Ball
react_one ev b =
    if leb_ℤ (pos 0) ev.button && ltb_ℤ ev.button (pos n_buttons) && eqb_ℤ b.player ev.player
    then record b { button_states = set b.button_states (pos_part ev.button) ev.pressed }
    else b

unfoldable pub react : List Event → Ball → Ball
react [] b = b
react (ev ∷ evs) b = react evs (react_one ev b)

-- `(ba->button_states[i] ? 1 : 0) * ACCEL`
pub push_of : Ball → ℕ → ℤ
push_of b i = if truthy (get_or b.button_states i (pos 0)) then pos accel else pos 0

pub accelerate : Ball → Ball
accelerate b = record b {
  v_x = i32 (i32 (b.v_x +ℤ push_of b 0) -ℤ push_of b 2);
  v_y = i32 (i32 (b.v_y +ℤ push_of b 3) -ℤ push_of b 1);
}

-- The speed of a ball without a player, along one axis.
pub drift : ℤ → ℤ → ℤ
drift p v =
    let v' = if leb_ℤ (pos (4 * arena_size / 5)) p then i32 (v -ℤ pos accel) else v in
    if leb_ℤ p (pos (arena_size / 5)) then i32 (v' +ℤ pos accel) else v'

unfoldable pub steer : List Event → Ball → Ball
steer evs b =
    if leb_ℤ (pos 0) b.player
    then accelerate (react evs b)
    else record b { v_x = drift b.p_x b.v_x; v_y = drift b.p_y b.v_y }

pub limit : ℤ → ℤ
limit v =
    let v' = if ltb_ℤ (pos max_speed) v then pos max_speed else v in
    if ltb_ℤ v' (negsuc (max_speed - 1)) then negsuc (max_speed - 1) else v'

pub limit_speed : Ball → Ball
limit_speed b = record b { v_x = limit b.v_x; v_y = limit b.v_y }

pub move : Ball → Ball
move b = record b { p_x = i32 (b.p_x +ℤ b.v_x); p_y = i32 (b.p_y +ℤ b.v_y) }

pub outside : Ball → Bool
outside b =
    ltb_ℤ b.p_x (pos 0)
    || ltb_ℤ b.p_y (pos 0)
    || leb_ℤ (pos arena_size) b.p_x
    || leb_ℤ (pos arena_size) b.p_y
