-- ===== src/Packets/Serialize/Fills.antt =====
-- What the functions of src/packets.c append to a buffer with room for it.
use sasd_protocols.Prelude.{
  ℕ, ◌+◌, ◌≤◌, ◌<◌, ◌≡◌, ap, ◌∙◌, List, [], ◌∷◌, ◌++◌, length, length-append, append-nil,
  append_assoc, arith, ℤ, pos,
}
use sasd_protocols.Prelude.Word.{wrap, mod16, mod64}
use sasd_protocols.Balls.Types.{Ball, State, Event}
use sasd_protocols.Buffer.Types.{Handle, live, Allocator}
use sasd_protocols.Buffer.Push.{char_bytes, int16_bytes, int32_bytes}
use sasd_protocols.Buffer.Push.Fits.{
  holding, push_char-holding, push_int16-holding, push_int32-holding, push_string-holding,
}
use sasd_protocols.Packets.Layout.{each, ball_bytes, state_bytes, event_bytes}
use sasd_protocols.Packets.Serialize.{
  push_char', push_int16', push_int32', push_string', push_chars, push_int32s, ball_push,
  push_balls,
}

-- `f` appends the bytes `ys` to every buffer of `size` bytes that has room for them.
pub record Fills (size : ℕ) (f : Handle → Handle) (ys : List ℕ) : Type 0 where
  pub fill :
      (xs : List ℕ)
      → length xs + length ys ≤ size
      → f (live (holding size xs)) ≡ live (holding size (xs ++ ys))

module _ {size : ℕ} where
  Fills-id : Fills size (λ h. h) []
  Fills-id = record { fill = λ xs h. rw append-nil }

  -- One write after another.
  pub Fills-then :
      {f g : Handle → Handle} {ys zs : List ℕ}
      → Fills size f ys
      → Fills size g zs
      → Fills size (λ h. g (f h)) (ys ++ zs)
  Fills-then {f} {g} {ys} {zs} p q = record {
    fill = λ xs h. rw (p.fill xs (omega (arith, length-append ys zs))) (
        q.fill (xs ++ ys) (omega (arith, length-append ys zs, length-append xs ys))
        ∙ ap (λ l. live (holding size l)) (append_assoc xs ys zs));
  }

module _ (heap : Allocator) {size : ℕ} (small : size < mod64) where
  pub char-Fills : (c : ℤ) → Fills size (λ h. push_char' heap h c) (char_bytes c)
  unfolding push_char'
  char-Fills c = record { fill = λ xs h. ap (λ r. r.1) (push_char-holding heap size xs c h small) }

  pub int16-Fills : (z : ℤ) → Fills size (λ h. push_int16' heap h z) (int16_bytes z)
  unfolding push_int16'
  int16-Fills z = record {
    fill = λ xs h. ap (λ r. r.1) (push_int16-holding heap size xs z h small);
  }

  pub int32-Fills : (z : ℤ) → Fills size (λ h. push_int32' heap h z) (int32_bytes z)
  unfolding push_int32'
  int32-Fills z = record {
    fill = λ xs h. ap (λ r. r.1) (push_int32-holding heap size xs z h small);
  }

  pub string-Fills :
      (xs : List ℕ)
      → Fills size (λ h. push_string' heap h xs) (int16_bytes (wrap mod16 (pos (length xs))) ++ xs)
  unfolding push_string'
  string-Fills ys = record {
    fill = λ xs h. ap (λ r. r.1) (push_string-holding heap size xs ys (omega arith) small);
  }

  chars-Fills : (cs : List ℤ) → Fills size (λ h. push_chars heap h cs) (each char_bytes cs)
  unfolding push_chars
  chars-Fills [] = Fills-id
  chars-Fills (c ∷ cs) = Fills-then (char-Fills c) (chars-Fills cs)

  int32s-Fills : (zs : List ℤ) → Fills size (λ h. push_int32s heap h zs) (each int32_bytes zs)
  unfolding push_int32s
  int32s-Fills [] = Fills-id
  int32s-Fills (z ∷ zs) = Fills-then (int32-Fills z) (int32s-Fills zs)

  pub ball-Fills : (b : Ball) → Fills size (λ h. ball_push heap h b) (ball_bytes b)
  unfolding ball_push ball_bytes
  ball-Fills b = Fills-then (int32-Fills b.p_x) (
      Fills-then (int32-Fills b.p_y) (
        Fills-then (int32-Fills b.v_x) (
          Fills-then (int32-Fills b.v_y)
            (Fills-then (int32-Fills b.player) (chars-Fills b.button_states)))))

  balls-Fills : (bs : List Ball) → Fills size (λ h. push_balls heap h bs) (each ball_bytes bs)
  unfolding push_balls
  balls-Fills [] = Fills-id
  balls-Fills (b ∷ bs) = Fills-then (ball-Fills b) (balls-Fills bs)

  pub state-Fills :
      (s : State)
      → Fills size
          (λ h.
            push_int32' heap
              (push_balls heap
                (push_int32s heap (push_int32' heap (push_char' heap h s.paused) s.frame) s.scores)
                s.balls)
              s.lie)
          (state_bytes s)
  unfolding state_bytes
  state-Fills s = Fills-then (char-Fills s.paused) (
      Fills-then (int32-Fills s.frame)
        (Fills-then (int32s-Fills s.scores) (Fills-then (balls-Fills s.balls) (int32-Fills s.lie))))

  pub event-Fills :
      (ev : Event)
      → Fills size
          (λ h.
            push_char' heap
              (push_char' heap
                (push_int32' heap
                  (push_int32' heap (push_int32' heap h ev.frame) ev.summon_frame)
                  ev.player)
                ev.button)
              ev.pressed)
          (event_bytes ev)
  unfolding event_bytes
  event-Fills ev = Fills-then (int32-Fills ev.frame) (
      Fills-then (int32-Fills ev.summon_frame) (
        Fills-then (int32-Fills ev.player)
          (Fills-then (char-Fills ev.button) (char-Fills ev.pressed))))
