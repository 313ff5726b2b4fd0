-- ===== src/Balls/Compare.antt =====
-- `compare_events` of src/balls/balls.c, the order in which `advance_state` sorts events.
pub mod Rank
use sasd_protocols.Prelude.{ℤ, pos, ◌-ℤ◌, eqb_ℤ, if◌then◌else◌}
use sasd_protocols.Prelude.Word.{wrap, mod32}
use sasd_protocols.Balls.Types.{Event}

-- `int` subtraction. The operands are promoted from `char` or are `int32_t`.
abbrev pub sub_int : ℤ → ℤ → ℤ
sub_int a b = wrap mod32 (a -ℤ b)

-- By `pressed` (descending), then `player`, then `button`, then `frame`; `summon_frame` is not
-- looked at.
unfoldable pub compare_events : Event → Event → ℤ
compare_events aa bb =
    let by_pressed = sub_int bb.pressed aa.pressed in
    let by_player = sub_int aa.player bb.player in
    let by_button = sub_int aa.button bb.button in
    if eqb_ℤ by_pressed (pos 0)
    then (if eqb_ℤ by_player (pos 0)
        then (if eqb_ℤ by_button (pos 0) then sub_int aa.frame bb.frame else by_button)
        else by_player)
    else by_pressed
