-- ===== src/Balls/Advance/Alike.antt =====
-- `advance_state` takes events as a set: it does not see their order, nor their frames.
use mathlib.Core.List.{Perm}
use mathlib.Core.Option
use mathlib.Core.Path.{fun_ext}
use sasd_protocols.Prelude.{◌≡◌, refl, ap, ℤ, List, [], ◌∷◌, Option, ◌>>=◌, All, arith}
use sasd_protocols.Balls.Types.{Ball, State, Event, IsEvent}
use sasd_protocols.Balls.Sorting.{IsQsort, IsAlike, AllAlike, sort_events-AllAlike}
use sasd_protocols.Balls.Advance.Score.{Tally}
use sasd_protocols.Balls.Advance.Move.{react_one, react, steer}
use sasd_protocols.Balls.Advance.{
  connect_one, connect_all, update_ball, update_balls, play, next_frame, advance_sorted,
  sort_events, advance_state,
}

connect_one-IsAlike : (a b : Event) (s : State) → IsAlike a b → connect_one a s ≡ connect_one b s
unfolding connect_one
connect_one-IsAlike a b s h = rw (h.button, h.player, h.pressed)

connect_all-AllAlike :
    (l r : List Event) (s : State) → AllAlike l r → connect_all l s ≡ connect_all r s
unfolding connect_all
connect_all-AllAlike [] [] s h = refl
connect_all-AllAlike [] (b ∷ r) s h = absurd h
connect_all-AllAlike (a ∷ l) [] s h = absurd h
connect_all-AllAlike (a ∷ l) (b ∷ r) s (h, hs) = rw (connect_one-IsAlike a b s h) (
    ap (λ (k : State → Option State). connect_one b s >>= k)
      (fun_ext λ s'. connect_all-AllAlike l r s' hs))

react_one-IsAlike : (a b : Event) (ball : Ball) → IsAlike a b → react_one a ball ≡ react_one b ball
unfolding react_one
react_one-IsAlike a b ball h = rw (h.button, h.player, h.pressed)

react-AllAlike : (l r : List Event) (b : Ball) → AllAlike l r → react l b ≡ react r b
unfolding react
react-AllAlike [] [] b h = refl
react-AllAlike [] (y ∷ r) b h = absurd h
react-AllAlike (x ∷ l) [] b h = absurd h
react-AllAlike (x ∷ l) (y ∷ r) b (h, hs) =
    rw (react_one-IsAlike x y b h) (react-AllAlike l r (react_one y b) hs)

module _ (l r : List Event) (h : AllAlike l r) where
  update_ball-AllAlike : (b : Ball) (t : Tally) → update_ball l b t ≡ update_ball r b t
  unfolding update_ball steer
  update_ball-AllAlike b t = rw (react-AllAlike l r b h)

  update_balls-AllAlike : (bs : List Ball) (t : Tally) → update_balls l bs t ≡ update_balls r bs t
  unfolding update_balls
  update_balls-AllAlike [] t = refl
  update_balls-AllAlike (b ∷ bs) t = simp (update_ball-AllAlike b t, update_balls-AllAlike bs)

  play-AllAlike : (s : State) → play l s ≡ play r s
  unfolding play
  play-AllAlike s = rw update_balls-AllAlike

  pub advance_sorted-AllAlike : (s : State) → advance_sorted l s ≡ advance_sorted r s
  unfolding advance_sorted
  advance_sorted-AllAlike s = simp (connect_all-AllAlike l r (next_frame s) h, play-AllAlike)

-- The state that `advance_state` computes, without the caller's events.
abbrev pub next_state :
    ((Event → Event → ℤ) → List Event → List Event) → State → List Event → Option State
next_state qsort ini evs = Option.map (λ r. r.0) (advance_state qsort ini evs)

pub next_state-sorted :
    (qsort : (Event → Event → ℤ) → List Event → List Event) (ini : State) (evs : List Event)
    → next_state qsort ini evs ≡ advance_sorted (sort_events qsort evs) ini
unfolding advance_state
next_state-sorted qsort ini evs = ground arith

-- Two lists that hold the same valid events in any two orders, sorted by any two routines that
-- meet the contract of `qsort`, lead `advance_state` from one state to the same next state (or
-- both to an access out of bounds).
pub next_state-perm :
    {qsort qsort' : (Event → Event → ℤ) → List Event → List Event} (ini : State)
    (evs evs' : List Event)
    → IsQsort qsort
    → IsQsort qsort'
    → All IsEvent evs
    → Perm evs evs'
    → next_state qsort ini evs ≡ next_state qsort' ini evs'
next_state-perm {qsort} {qsort'} ini evs evs' q q' h p =
    rw (next_state-sorted qsort ini evs, next_state-sorted qsort' ini evs')
      (advance_sorted-AllAlike _ _ (sort_events-AllAlike q q' evs evs' h p) ini)
