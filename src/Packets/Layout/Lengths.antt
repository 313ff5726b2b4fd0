-- ===== src/Packets/Layout/Lengths.antt =====
-- How long the parts of a packet are.
use sasd_protocols.Prelude.{
  ℕ, ◌+◌, ◌*◌, ◌≡◌, refl, List, [], ◌∷◌, ◌++◌, length, length-append, All, arith, ℤ,
}
use sasd_protocols.Balls.Types.{Ball, State, n_buttons, n_balls, max_players}
use sasd_protocols.Buffer.Push.{char_bytes, int32_bytes}
use sasd_protocols.Packets.Layout.{each, ball_bytes, state_bytes, IsBallSent, IsStateSent}

length-each :
    {A : Type 0} (f : A → List ℕ) (n : ℕ) (xs : List A)
    → All (λ x. length (f x) ≡ n) xs
    → length (each f xs) ≡ n * length xs
length-each f n [] h = omega arith
length-each f n (x ∷ xs) (h, hs) =
    grind (arith, length-append (f x) (each f xs), length-each f n xs hs)

length-chars : (cs : List ℤ) → length (each char_bytes cs) ≡ length cs
length-chars [] = refl
length-chars (c ∷ cs) = omega (arith, length-chars cs)

length-int32s : (zs : List ℤ) → length (each int32_bytes zs) ≡ 4 * length zs
length-int32s [] = refl
length-int32s (z ∷ zs) = omega (arith, length-int32s zs)

pub length-ball_bytes : (b : Ball) → IsBallSent b → length (ball_bytes b) ≡ 20 + n_buttons
unfolding ball_bytes
length-ball_bytes b v = omega (arith, length-chars b.button_states, v.buttons_length)

balls_long : (bs : List Ball) → All IsBallSent bs → All (λ b. length (ball_bytes b) ≡ 24) bs
balls_long [] h = tt
balls_long (b ∷ bs) (h, hs) = (length-ball_bytes b h, balls_long bs hs)

pub length-state_bytes :
    (s : State)
    → IsStateSent s
    → length (state_bytes s) ≡ 1 + 4 + 4 * max_players + (20 + n_buttons) * n_balls + 4
unfolding state_bytes
length-state_bytes s v = omega (
  arith,
  length-append (each int32_bytes s.scores) (each ball_bytes s.balls ++ int32_bytes s.lie),
  length-append (each ball_bytes s.balls) (int32_bytes s.lie),
  length-int32s s.scores,
  length-each ball_bytes 24 s.balls (balls_long s.balls v.balls),
  v.scores_length,
  v.balls_length,
)
