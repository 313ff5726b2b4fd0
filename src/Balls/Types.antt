-- ===== src/Balls/Types.antt =====
-- src/balls/balls.h: the constants and the structs. An `int32_t` or a `char` is the integer that
-- it stands for; an array is a list, and its fixed length is part of `IsWellFormed`.
use sasd_protocols.Prelude.{
  ℕ, ◌-◌, ◌^◌, ◌≡◌, ℤ, pos, negsuc, eqb_ℤ, ◌≤ℤ◌, Bool, not, List, length, All,
}

abbrev pub max_players : ℕ
max_players = 8

abbrev pub n_balls : ℕ
n_balls = 12

abbrev pub arena_size : ℕ
arena_size = 3000

abbrev pub accel : ℕ
accel = 2

abbrev pub max_speed : ℕ
max_speed = 64

abbrev pub ball_radious : ℕ
ball_radious = 56

abbrev pub n_buttons : ℕ
n_buttons = 4

-- `player` is -1 for a ball that no player steers.
pub record Ball : Type 0 where
  pub p_x : ℤ
  pub p_y : ℤ
  pub v_x : ℤ
  pub v_y : ℤ
  pub player : ℤ
  pub button_states : List ℤ

pub record State : Type 0 where
  pub paused : ℤ
  pub frame : ℤ
  pub death_count : ℤ
  pub scores : List ℤ
  pub balls : List Ball
  pub lie : ℤ

pub record Event : Type 0 where
  pub frame : ℤ
  pub summon_frame : ℤ
  pub player : ℤ
  pub button : ℤ
  pub pressed : ℤ

-- The value of a `char` or an `int` as a condition.
abbrev pub truthy : ℤ → Bool
truthy z = not (eqb_ℤ z (pos 0))

-- A ball inside the arena, its speed within the limit.
pub record InArena (b : Ball) : Type 0 where
  pub x_low : pos 0 ≤ℤ b.p_x
  pub x_high : b.p_x ≤ℤ pos (arena_size - 1)
  pub y_low : pos 0 ≤ℤ b.p_y
  pub y_high : b.p_y ≤ℤ pos (arena_size - 1)
  pub vx_low : negsuc (max_speed - 1) ≤ℤ b.v_x
  pub vx_high : b.v_x ≤ℤ pos max_speed
  pub vy_low : negsuc (max_speed - 1) ≤ℤ b.v_y
  pub vy_high : b.v_y ≤ℤ pos max_speed

-- A player's number, or -1, and the length of the array of buttons.
pub record IsBall (b : Ball) : Type 0 where
  pub low : negsuc 0 ≤ℤ b.player
  pub high : b.player ≤ℤ pos (max_players - 1)
  pub buttons : length b.button_states ≡ n_buttons

pub record IsWellFormed (s : State) : Type 0 where
  pub scores_length : length s.scores ≡ max_players
  pub balls_length : length s.balls ≡ n_balls
  pub players : All IsBall s.balls

-- The events that clients make: the number of a player, frames far from the ends of `int32_t`,
-- and `char`s for the button and whether it is pressed.
pub record IsEvent (ev : Event) : Type 0 where
  pub player_low : pos 0 ≤ℤ ev.player
  pub player_high : ev.player ≤ℤ pos (max_players - 1)
  pub frame_low : negsuc (2 ^ 30 - 1) ≤ℤ ev.frame
  pub frame_high : ev.frame ≤ℤ pos (2 ^ 30 - 1)
  pub button_low : negsuc (2 ^ 7 - 1) ≤ℤ ev.button
  pub button_high : ev.button ≤ℤ pos (2 ^ 7 - 1)
  pub pressed_low : negsuc (2 ^ 7 - 1) ≤ℤ ev.pressed
  pub pressed_high : ev.pressed ≤ℤ pos (2 ^ 7 - 1)
