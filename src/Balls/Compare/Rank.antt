-- ===== src/Balls/Compare/Rank.antt =====
-- `compare_events` orders events as a number does: it is a total preorder on events whose
-- fields are far enough from the ends of `int` for its subtractions not to overflow.
use sasd_protocols.Prelude.{
  ℕ, ◌+◌, ◌-◌, ◌*◌, ◌/◌, ◌^◌, ◌≤◌, ◌<◌, ◌≡◌, ◌↔◌, ℤ, pos, pos_part, neg_part, ◌-ℤ◌, ◌≤ℤ◌, eqb_ℤ,
  if◌then◌else◌, -ℤ_parts, eq_of_parts, parts_excl, parts_bound, refl, arith,
}
use sasd_protocols.Prelude.Word.{signed-bits_32, mod32}
use sasd_protocols.Balls.Types.{Event, IsEvent}
use sasd_protocols.Balls.Compare.{sub_int, compare_events}

-- An integer not below -k, counted from -k on.
abbrev from_low : ℕ → ℤ → ℕ
from_low k z = pos_part z + k - neg_part z

-- What `advance_state` looks at, as one number.
abbrev pub key : Event → ℕ
key ev = ((255 - from_low 128 ev.pressed) * 256 + pos_part ev.player) * 256 + from_low 128 ev.button

-- The key, and the frame behind it.
abbrev pub rank : Event → ℕ
rank ev = key ev * 2 ^ 32 + from_low (2 ^ 31) ev.frame

sub_int-eq :
    (a b : ℤ)
    → pos_part a + neg_part b < 2 ^ 31
    → neg_part a + pos_part b < 2 ^ 31
    → sub_int a b ≡ a -ℤ b
sub_int-eq a b h k = signed-bits_32 (a -ℤ b) (small a b h k)
  where
    small :
        (a b : ℤ)
        → pos_part a + neg_part b < 2 ^ 31
        → neg_part a + pos_part b < 2 ^ 31
        → (pos_part (a -ℤ b) < mod32 / 2) × (neg_part (a -ℤ b) ≤ mod32 / 2)
    small a b h k = unfold ◌-ℤ◌ in ground arith

record IsSmall (ev : Event) : Type 0 where
  player : (pos_part ev.player ≤ 7) × (neg_part ev.player ≤ 0)
  frame : (pos_part ev.frame ≤ 2 ^ 30 - 1) × (neg_part ev.frame ≤ 2 ^ 30)
  button : (pos_part ev.button ≤ 127) × (neg_part ev.button ≤ 128)
  pressed : (pos_part ev.pressed ≤ 127) × (neg_part ev.pressed ≤ 128)

small : (ev : Event) → IsEvent ev → IsSmall ev
small ev u = record {
  player = parts_bound 0 7 ev.player (omega arith) (omega arith);
  frame = parts_bound (2 ^ 30) (2 ^ 30 - 1) ev.frame (omega arith) (omega arith);
  button = parts_bound 128 127 ev.button (omega arith) (omega arith);
  pressed = parts_bound 128 127 ev.pressed (omega arith) (omega arith);
}

-- The comparison with its subtractions as integers.
lexical : ℤ → ℤ → ℤ → ℤ → ℤ
lexical by_pressed by_player by_button by_frame =
    if eqb_ℤ by_pressed (pos 0)
    then (if eqb_ℤ by_player (pos 0)
        then (if eqb_ℤ by_button (pos 0) then by_frame else by_button)
        else by_player)
    else by_pressed

-- The order of the four differences taken as one number in which each weighs more than all
-- that come behind it.
lexical_sign :
    (p q r s : ℤ)
    → (neg_part q ≤ 7) × (pos_part q ≤ 7)
    → (neg_part r ≤ 255) × (pos_part r ≤ 255)
    → (neg_part s ≤ 2 ^ 31 - 1) × (pos_part s ≤ 2 ^ 31 - 1)
    → (lexical p q r s ≤ℤ pos 0) ↔ (
        ((pos_part p * 256 + pos_part q) * 256 + pos_part r) * 2 ^ 32 + pos_part s
        ≤ ((neg_part p * 256 + neg_part q) * 256 + neg_part r) * 2 ^ 32 + neg_part s)
unfolding lexical
lexical_sign p q r s hq hr hs = (
  λ h. ground (arith, parts_excl p, parts_excl q, parts_excl r, parts_excl s),
  λ h. ground (arith, parts_excl p, parts_excl q, parts_excl r, parts_excl s),
)

module _ (a b : Event) (u : IsEvent a) (v : IsEvent b) where
  compare_exact :
      compare_events a b
      ≡ lexical
          (b.pressed -ℤ a.pressed)
          (a.player -ℤ b.player)
          (a.button -ℤ b.button)
          (a.frame -ℤ b.frame)
  unfolding compare_events lexical
  compare_exact =
      let s = small a u in
      let t = small b v in
      rw
        (
          sub_int-eq b.pressed a.pressed (omega arith) (omega arith),
          sub_int-eq a.player b.player (omega arith) (omega arith),
          sub_int-eq a.button b.button (omega arith) (omega arith),
          sub_int-eq a.frame b.frame (omega arith) (omega arith),
        )
        refl

  diff_bounds :
      (k l : ℕ) (x y : ℤ)
      → pos_part x ≤ l
      → neg_part x ≤ k
      → pos_part y ≤ l
      → neg_part y ≤ k
      → (neg_part (x -ℤ y) ≤ k + l) × (pos_part (x -ℤ y) ≤ k + l)
  diff_bounds k l x y h1 h2 h3 h4 = omega (arith, -ℤ_parts x y, parts_excl (x -ℤ y))

  -- On two valid events, `compare_events` says at most 0 exactly when the first has the smaller or
  -- equal rank: a number that looks at `pressed` (the greater the smaller), then at the player, at
  -- the button and at the frame.
  pub compare_le_iff_rank : (compare_events a b ≤ℤ pos 0) ↔ (rank a ≤ rank b)
  compare_le_iff_rank =
      let s = small a u in
      let t = small b v in
      let l =
        lexical_sign (b.pressed -ℤ a.pressed) (a.player -ℤ b.player) (a.button -ℤ b.button)
          (a.frame -ℤ b.frame)
          (diff_bounds 0 7 a.player b.player s.player.0 s.player.1 t.player.0 t.player.1)
          (diff_bounds 128 127 a.button b.button s.button.0 s.button.1 t.button.0 t.button.1)
          (diff_bounds (2 ^ 30) (2 ^ 30 - 1) a.frame b.frame s.frame.0 s.frame.1 t.frame.0
            t.frame.1) in
      rw compare_exact (
        λ h. omega (
          arith,
          l.0 h,
          -ℤ_parts b.pressed a.pressed,
          -ℤ_parts a.player b.player,
          -ℤ_parts a.button b.button,
          -ℤ_parts a.frame b.frame,
        ),
        λ h. l.1 (
            omega (
              arith,
              -ℤ_parts b.pressed a.pressed,
              -ℤ_parts a.player b.player,
              -ℤ_parts a.button b.button,
              -ℤ_parts a.frame b.frame,
            )),
      )

  pub key→fields :
      key a ≡ key b → (a.pressed ≡ b.pressed) × (a.player ≡ b.player) × (a.button ≡ b.button)
  key→fields h =
      let s = small a u in
      let t = small b v in
      (
        eq_of_parts a.pressed b.pressed (omega arith),
        eq_of_parts a.player b.player (omega arith),
        eq_of_parts a.button b.button (omega arith),
      )

  pub rank→key : rank a ≤ rank b → key a ≤ key b
  rank→key h = let s = small a u in let t = small b v in omega arith
