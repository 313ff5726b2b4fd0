-- ===== src/Terminal/Laws.antt =====
-- What is typed at the terminal of src/client.c is a packet that can be sent.
use sasd_protocols.Prelude.{
  ℕ, zero, suc, ◌+◌, ◌≤◌, ◌≡◌, refl, ap, List, [], ◌∷◌, length, All, map, length-map, Bool-cases,
  inl, inr, ℤ, pos, negsuc, ◌+ℤ◌, arith,
}
use sasd_protocols.Prelude.Word.{InWidth, mod8, mod32, wrap, bits, signed}
use sasd_protocols.Balls.Types.{Ball, n_balls}
use sasd_protocols.Balls.Collide.{i32}
use sasd_protocols.Packets.Layout.{IsBallSent, IsStateSent, IsEventSent, IsSent}
use sasd_protocols.Terminal.{
  Unassigned, same_word, ball_word, state_word, event_word, a_ball, next_ball, balls_from, a_state,
  an_event, payload_for,
}

-- Values that the fields can hold.
pub record IsUnassigned (u : Unassigned) : Type 0 where
  pub paused : InWidth mod8 u.paused
  pub lie : InWidth mod32 u.lie

bits-lt_8 : (z : ℤ) → (bits mod8 z) + 1 ≤ mod8
unfolding bits
bits-lt_8 (pos n) = omega arith
bits-lt_8 (negsuc n) = omega arith

bits-lt_32 : (z : ℤ) → (bits mod32 z) + 1 ≤ mod32
unfolding bits
bits-lt_32 (pos n) = omega arith
bits-lt_32 (negsuc n) = omega arith

signed-InWidth_8 : (w : ℕ) → w + 1 ≤ mod8 → InWidth mod8 (signed mod8 w)
unfolding signed
signed-InWidth_8 w h = ground arith

signed-InWidth_32 : (w : ℕ) → w + 1 ≤ mod32 → InWidth mod32 (signed mod32 w)
unfolding signed
signed-InWidth_32 w h = ground arith

pub wrap-InWidth_8 : (z : ℤ) → InWidth mod8 (wrap mod8 z)
wrap-InWidth_8 z = signed-InWidth_8 (bits mod8 z) (bits-lt_8 z)

pub i32-InWidth : (z : ℤ) → InWidth mod32 (i32 z)
i32-InWidth z = signed-InWidth_32 (bits mod32 z) (bits-lt_32 z)

a_ball-IsBallSent : (id : ℤ) → InWidth mod32 id → IsBallSent (a_ball id)
unfolding a_ball
a_ball-IsBallSent id w = record {
  p_x = omega arith;
  p_y = omega arith;
  v_x = omega arith;
  v_y = omega arith;
  player = w;
  buttons_length = refl;
  buttons = omega arith;
}

counted-InWidth : (cs : List ℤ) → All (InWidth mod8) (map (λ c. wrap mod8 (c +ℤ pos 1)) cs)
counted-InWidth [] = tt
counted-InWidth (c ∷ cs) = (wrap-InWidth_8 (c +ℤ pos 1), counted-InWidth cs)

next_ball-IsBallSent : (b : Ball) → IsBallSent b → IsBallSent (next_ball b)
unfolding next_ball
next_ball-IsBallSent b h = record {
  p_x = i32-InWidth (b.p_x +ℤ pos 1);
  p_y = i32-InWidth (b.p_y +ℤ pos 1);
  v_x = i32-InWidth (b.v_x +ℤ pos 1);
  v_y = i32-InWidth (b.v_y +ℤ pos 1);
  player = i32-InWidth (b.player +ℤ pos 1);
  buttons_length = rw (length-map (λ c. wrap mod8 (c +ℤ pos 1)) b.button_states) h.buttons_length;
  buttons = counted-InWidth b.button_states;
}

balls_from-IsBallSent : (n : ℕ) (b : Ball) → IsBallSent b → All IsBallSent (balls_from n b)
unfolding balls_from
balls_from-IsBallSent zero b h = tt
balls_from-IsBallSent (suc n) b h =
    (h, balls_from-IsBallSent n (next_ball b) (next_ball-IsBallSent b h))

length-balls_from : (n : ℕ) (b : Ball) → length (balls_from n b) ≡ n
unfolding balls_from
length-balls_from zero b = refl
length-balls_from (suc n) b = ap suc (length-balls_from n (next_ball b))

a_state-IsStateSent :
    (u : Unassigned) (id : ℤ) → IsUnassigned u → InWidth mod32 id → IsStateSent (a_state u id)
unfolding a_state
a_state-IsStateSent u id h w = record {
  paused = h.paused;
  frame = omega arith;
  scores_length = refl;
  scores = omega arith;
  balls_length = length-balls_from n_balls (a_ball id);
  balls = balls_from-IsBallSent n_balls (a_ball id) (a_ball-IsBallSent id w);
  lie = h.lie;
}

an_event-IsEventSent : (id : ℤ) → InWidth mod32 id → IsEventSent (an_event id)
unfolding an_event
an_event-IsEventSent id w = record {
  frame = omega arith;
  summon_frame = omega arith;
  player = w;
  button = omega arith;
  pressed = omega arith;
}

pub payload_for-IsSent :
    (u : Unassigned) (id : ℤ) (word : List ℕ)
    → IsUnassigned u
    → InWidth mod32 id
    → length word ≤ 255
    → IsSent (payload_for u id word)
unfolding payload_for
payload_for-IsSent u id word h w le = elim (Bool-cases (same_word word ball_word)) [
  | inl e ↦ rw e (a_ball-IsBallSent id w)
  | inr e ↦ rw e (elim (Bool-cases (same_word word state_word)) [
    | inl f ↦ rw f (a_state-IsStateSent u id h w)
    | inr f ↦ rw f (elim (Bool-cases (same_word word event_word)) [
      | inl g ↦ rw g (an_event-IsEventSent id w)
      | inr g ↦ rw g le
    ])
  ])
]
