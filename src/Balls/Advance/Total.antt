-- ===== src/Balls/Advance/Total.antt =====
-- On a well-formed state and events of known players, `advance_state` stays inside its arrays,
-- gives a well-formed state, and puts every ball into the arena.
use sasd_protocols.Prelude.{
  ◌-◌, ◌<◌, ◌≡◌, refl, ◌∙◌, ℤ, pos, negsuc, ◌≤ℤ◌, ◌+ℤ◌, eqb_ℤ, pos_part, List, [], ◌∷◌, length, All,
  Returns, Returns-bind, Bool-cases, true, inl, inr, arith, ◌⊎◌, if◌then◌else◌,
}
use sasd_protocols.Balls.Types.{
  Ball, State, Event, InArena, IsBall, IsWellFormed, IsEvent, max_players, n_balls, n_buttons,
  truthy,
}
use sasd_protocols.Balls.Collide.{i32}
use mathlib.Core.List.{Perm}
use sasd_protocols.Balls.Sorting.{IsQsort, sort_events-perm, sort_events-IsEvent}
use sasd_protocols.Balls.Advance.Rounds.{play-Returns}
use sasd_protocols.Balls.Advance.Score.Total.{SameLength, modify?-Returns}
use sasd_protocols.Balls.Advance.{
  connect_one, connect_all, next_frame, advance_sorted, sort_events, advance_state,
}

-- The number of a player of the game.
abbrev pub HasPlayer : Event → Type 0
HasPlayer ev = (pos 0 ≤ℤ ev.player) × (ev.player ≤ℤ pos (max_players - 1))

-- The player of an event is known, if the event reaches the array of balls.
Connected : State → State → Type 0
Connected s0 s = IsWellFormed s × (s.frame ≡ s0.frame)

connected_ball :
    (ev : Event) (b : Ball)
    → HasPlayer ev
    → IsBall b
    → IsBall (record b { player = if truthy ev.pressed then ev.player else negsuc 0 })
connected_ball ev b h v = ground arith

connect_one-Returns :
    (ev : Event) (s : State)
    → HasPlayer ev
    → IsWellFormed s
    → Returns (Connected s) (connect_one ev s)
unfolding connect_one Connected
connect_one-Returns ev s h w = elim (Bool-cases (eqb_ℤ ev.button (pos n_buttons))) [
  | inl e ↦ rw e (
      Returns-bind (SameLength IsBall s.balls) (Connected s) _ _
        (modify?-Returns IsBall s.balls ev.player _ h.0 (within ev.player h.1 w.balls_length)
          w.players (λ b v. connected_ball ev b h v))
        λ bs l. (
          record s { balls = bs; paused = pos 0 },
          refl,
          (
            record {
              scores_length = w.scores_length;
              balls_length = l.0 ∙ w.balls_length;
              players = l.1;
            },
            refl,
          ),
        ))
  | inr e ↦ rw e (s, refl, (w, refl))
]
  where
    within :
        (z : ℤ)
        → z ≤ℤ pos (max_players - 1)
        → length s.balls ≡ n_balls
        → pos_part z < length s.balls
    within (pos n) p q = omega arith
    within (negsuc n) p q = omega arith

connect_all-Returns :
    (evs : List Event) (s : State)
    → All HasPlayer evs
    → IsWellFormed s
    → Returns (Connected s) (connect_all evs s)
unfolding connect_all Connected
connect_all-Returns [] s h w = (s, refl, (w, refl))
connect_all-Returns (ev ∷ evs) s (h, hs) w =
    Returns-bind (Connected s) (Connected s) _ _ (connect_one-Returns ev s h w)
      λ t c. let (u, e, d) = connect_all-Returns evs t hs c.0 in (u, e, (d.0, d.1 ∙ c.1))

next_frame-IsWellFormed : (s : State) → IsWellFormed s → IsWellFormed (next_frame s)
unfolding next_frame
next_frame-IsWellFormed s w = ground arith

-- The next state: one frame on, and unless the game has not begun, with all balls in the arena.
pub record IsNext (ini s : State) : Type 0 where
  pub well_formed : IsWellFormed s
  pub one_on : s.frame ≡ i32 (ini.frame +ℤ pos 1)
  pub inside : (truthy s.paused ≡ true) ⊎ All InArena s.balls

pub advance_sorted-Returns :
    (evs : List Event) (ini : State)
    → All HasPlayer evs
    → IsWellFormed ini
    → Returns (IsNext ini) (advance_sorted evs ini)
unfolding advance_sorted next_frame Connected
advance_sorted-Returns evs ini h w =
    Returns-bind (Connected (next_frame ini)) (IsNext ini) _ _
      (connect_all-Returns evs (next_frame ini) h (next_frame-IsWellFormed ini w))
      λ s c. elim (Bool-cases (truthy s.paused)) [
        | inl e ↦ rw e (s, refl, record { well_formed = c.0; one_on = c.1; inside = inl e })
        | inr e ↦ rw e (
            let (t, q, p) = play-Returns evs s c.0 in
            (t, q, record { well_formed = p.0; one_on = p.2 ∙ c.1; inside = inr p.1 }))
      ]

players_known : (evs : List Event) → All IsEvent evs → All HasPlayer evs
players_known [] h = tt
players_known (ev ∷ evs) (h, hs) = ((h.player_low, h.player_high), players_known evs hs)

-- From a well-formed state and valid events, with any routine that meets the contract of `qsort`,
-- `advance_state` returns: no access leaves an array. The next state is well-formed and one frame
-- on, and unless it is paused all its balls are in the arena with their speeds within the limit.
-- The caller's events are left in some order.
pub advance_state-Returns :
    {qsort : (Event → Event → ℤ) → List Event → List Event} (ini : State) (evs : List Event)
    → IsQsort qsort
    → All IsEvent evs
    → IsWellFormed ini
    → Returns (λ r. IsNext ini r.0 × Perm r.1 evs) (advance_state qsort ini evs)
unfolding advance_state
advance_state-Returns {qsort} ini evs q h w =
    Returns-bind (IsNext ini) (λ r. IsNext ini r.0 × Perm r.1 evs) _ _
      (advance_sorted-Returns (sort_events qsort evs) ini
        (players_known (sort_events qsort evs) (sort_events-IsEvent q evs h)) w)
      λ s n. ((s, sort_events qsort evs), refl, (n, sort_events-perm q evs))
