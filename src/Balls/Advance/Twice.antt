-- ===== src/Balls/Advance/Twice.antt =====
-- An event that comes twice makes no difference to `advance_state`.
use mathlib.Core.Path.{fun_ext}
use sasd_protocols.Prelude.{
  ℕ, zero, suc, ◌≡◌, refl, ap, ℤ, pos, negsuc, List, [], ◌∷◌, set, get_elem?, Option, none, some,
  ◌>>=◌, ◌==◌, ◌&&◌, Bool-cases, inl, inr, true, if◌then◌else◌, eqb_ℤ, leb_ℤ, ltb_ℤ, pos_part,
  arith,
}
use sasd_protocols.Balls.Types.{Ball, State, Event, n_buttons, truthy}
use sasd_protocols.Balls.Compare.Rank.{key}
use sasd_protocols.Balls.Advance.Score.{modify?, Tally}
use sasd_protocols.Balls.Advance.Move.{react_one, react, steer}
use sasd_protocols.Balls.Advance.{
  connect_one, connect_all, update_ball, update_balls, play, next_frame, advance_sorted,
}

-- The list with its first event of a key twice.
abbrev pub double_event : ℕ → List Event → List Event
double_event k [] = []
double_event k (x ∷ l) = let rest = double_event k l in if key x == k then x ∷ x ∷ l else x ∷ rest

set_twice : {A : Type 0} (xs : List A) (i : ℕ) (v : A) → set (set xs i v) i v ≡ set xs i v
set_twice [] i v = refl
set_twice (x ∷ xs) zero v = refl
set_twice (x ∷ xs) (suc i) v = ap (λ l. x ∷ l) (set_twice xs i v)

get_elem?-set :
    {A : Type 0} (xs : List A) (i : ℕ) (x v : A)
    → get_elem? xs i ≡ some x
    → get_elem? (set xs i v) i ≡ some v
get_elem?-set [] i x v e = absurd (ground arith)
get_elem?-set (y ∷ xs) zero x v e = refl
get_elem?-set (y ∷ xs) (suc i) x v e = get_elem?-set xs i x v e

-- A change that is the same when it is repeated can be made twice.
modify?-twice :
    {A : Type 0} (f : A → A)
    → ((a : A) → f (f a) ≡ f a)
    → (xs : List A) (i : ℤ) → (modify? xs i f >>= λ ys. modify? ys i f) ≡ modify? xs i f
unfolding modify?
modify?-twice f h xs (negsuc i) = refl
modify?-twice f h xs (pos i) = by_element (get_elem? xs i) refl
  where
    by_element :
        (o : Option _)
        → get_elem? xs i ≡ o
        → (modify? xs (pos i) f >>= λ ys. modify? ys (pos i) f) ≡ modify? xs (pos i) f
    by_element none e = rw e refl
    by_element (some x) e =
        rw (e, get_elem?-set xs i x (f x) e, h x) (ap some (set_twice xs i (f x)))

react_one-twice : (ev : Event) (b : Ball) → react_one ev (react_one ev b) ≡ react_one ev b
unfolding react_one
react_one-twice ev b =
    elim (Bool-cases
      (leb_ℤ (pos 0) ev.button && ltb_ℤ ev.button (pos n_buttons) && eqb_ℤ b.player ev.player)) [
        | inl e ↦
            rw (e, e)
              (ap (λ l. record b { button_states = l })
                (set_twice b.button_states (pos_part ev.button) ev.pressed))
        | inr e ↦ rw (e, e) refl
      ]

react-double_event : (k : ℕ) (l : List Event) (b : Ball) → react (double_event k l) b ≡ react l b
unfolding react
react-double_event k [] b = refl
react-double_event k (x ∷ l) b = elim (Bool-cases (key x == k)) [
  | inl e ↦ rw e (ap (react l) (react_one-twice x b))
  | inr e ↦ rw e (react-double_event k l (react_one x b))
]

connect_one-twice :
    (ev : Event) (s : State) → (connect_one ev s >>= connect_one ev) ≡ connect_one ev s
unfolding connect_one
connect_one-twice ev s = elim (Bool-cases (eqb_ℤ ev.button (pos n_buttons))) [
  | inl e ↦ rw e (
      by_balls e (modify? s.balls ev.player name)
        (modify?-twice name (λ b. refl) s.balls ev.player))
  | inr e ↦ rw (e, e) refl
]
  where
    name : Ball → Ball
    name b = record b { player = if truthy ev.pressed then ev.player else negsuc 0 }

    by_balls :
        eqb_ℤ ev.button (pos n_buttons) ≡ true
        → (o : Option (List Ball)) → (o >>= λ bs. modify? bs ev.player name) ≡ o
        → ((o >>= λ bs. some (record s { balls = bs; paused = pos 0 })) >>= connect_one ev)
          ≡ (o >>= λ bs. some (record s { balls = bs; paused = pos 0 }))
    by_balls button none e = refl
    by_balls button (some bs) e = rw (button, e) refl

connect_all-double_event :
    (k : ℕ) (l : List Event) (s : State) → connect_all (double_event k l) s ≡ connect_all l s
unfolding connect_all
connect_all-double_event k [] s = refl
connect_all-double_event k (x ∷ l) s = elim (Bool-cases (key x == k)) [
  | inl e ↦ rw e (repeated (connect_one x s) (connect_one-twice x s))
  | inr e ↦ rw e (
      ap (λ (m : State → Option State). connect_one x s >>= m)
        (fun_ext λ s'. connect_all-double_event k l s'))
]
  where
    repeated :
        (o : Option State)
        → (o >>= connect_one x) ≡ o
        → (o >>= λ s'. connect_one x s' >>= λ s''. connect_all l s'')
          ≡ (o >>= λ s'. connect_all l s')
    repeated none e = refl
    repeated (some s') e = rw e refl

module _ (k : ℕ) (l : List Event) where
  update_ball-double_event :
      (b : Ball) (t : Tally) → update_ball (double_event k l) b t ≡ update_ball l b t
  unfolding update_ball steer
  update_ball-double_event b t = rw (react-double_event k l b) refl

  update_balls-double_event :
      (bs : List Ball) (t : Tally) → update_balls (double_event k l) bs t ≡ update_balls l bs t
  unfolding update_balls
  update_balls-double_event [] t = refl
  update_balls-double_event (b ∷ bs) t =
      simp (update_ball-double_event b t, update_balls-double_event bs)

  play-double_event : (s : State) → play (double_event k l) s ≡ play l s
  unfolding play
  play-double_event s = rw update_balls-double_event

  pub advance_sorted-double_event :
      (s : State) → advance_sorted (double_event k l) s ≡ advance_sorted l s
  unfolding advance_sorted
  advance_sorted-double_event s =
      simp (connect_all-double_event k l (next_frame s), play-double_event)
