-- ===== src/Balls/Advance.antt =====
-- `advance_state` of src/balls/balls.c. `none` stands for an access outside an array, which C leaves
-- undefined. `qsort` is the C library's, and so an argument.
pub mod Move
pub mod Score
pub mod Alike
pub mod Rounds
pub mod Same
pub mod Total
pub mod Twice
use sasd_protocols.Prelude.{
  ℕ, zero, suc, ◌+◌, ◌<◌, List, [], ◌∷◌, ℤ, pos, negsuc, ◌+ℤ◌, leb_ℤ, eqb_ℤ, ltb, length, Bool,
  true, false, Option, none, some, ◌>>=◌, if◌then◌else◌,
}
use sasd_protocols.Balls.Types.{Ball, State, Event, n_buttons, truthy}
use sasd_protocols.Balls.Compare.{compare_events}
use sasd_protocols.Balls.Collide.{Killed, i32, collide_balls, reset_ball}
use Move.{steer, limit_speed, move, outside}
use Score.{modify?, Tally, death, lose_point, win_point}

-- A connect or disconnect event names the ball of its player, and starts the game.
pub connect_one : Event → State → Option State
connect_one ev s =
    if eqb_ℤ ev.button (pos n_buttons)
    then (do
      balls ←
          modify? s.balls ev.player
            λ b. record b { player = if truthy ev.pressed then ev.player else negsuc 0 }
      some (record s { balls = balls; paused = pos 0 }))
    else some s

pub connect_all : List Event → State → Option State
connect_all [] s = some s
connect_all (ev ∷ evs) s = do s' ← connect_one ev s; connect_all evs s'

-- The ball is back in the arena, and its player, if it has one, loses a point.
pub leave : Ball → Tally → Option (Ball × Tally)
leave b t =
    let b' = reset_ball b t.death_count in
    if leb_ℤ (pos 0) b.player
    then (do t' ← lose_point b.player (death t); some (b', t'))
    else some (b', death t)

-- The body of the loop over the balls.
pub update_ball : List Event → Ball → Tally → Option (Ball × Tally)
update_ball evs b t =
    let b' = move (limit_speed (steer evs b)) in if outside b' then leave b' t else some (b', t)

pub update_balls : List Event → List Ball → Tally → Option (List Ball × Tally)
update_balls evs [] t = some ([], t)
update_balls evs (b ∷ bs) t = do
  (b', t') ← update_ball evs b t
  (bs', t'') ← update_balls evs bs t'
  some (b' ∷ bs', t'')

-- What follows a call of `collide_balls`: the killer gains a point, the killed ball is reset.
pub settle : Killed → Ball → Ball → Tally → Option (Ball × Ball × Tally)
settle Killed.nobody a b t = some (a, b, t)
settle Killed.first a b t = do
  t' ← win_point b.player t
  some (reset_ball a t.death_count, b, death t')
settle Killed.second a b t = do
  t' ← win_point a.player t
  some (a, reset_ball b t.death_count, death t')

-- The inner loop: ball `a` against each ball behind it.
pub collide_with : Ball → List Ball → Tally → Option (Ball × List Ball × Tally)
collide_with a [] t = some (a, [], t)
collide_with a (b ∷ bs) t =
    let (killed, a', b') = collide_balls a b in
    do
      (a'', b'', t') ← settle killed a' b' t
      (a''', bs', t'') ← collide_with a'' bs t'
      some (a''', b'' ∷ bs', t'')

-- The outer loop, with one round for each ball.
pub collide_all : ℕ → List Ball → Tally → Option (List Ball × Tally)
collide_all zero bs t = some (bs, t)
collide_all (suc left) [] t = some ([], t)
collide_all (suc left) (a ∷ bs) t = do
  (a', bs', t') ← collide_with a bs t
  (bs'', t'') ← collide_all left bs' t'
  some (a' ∷ bs'', t'')

-- The rest of `advance_state`, once the events are in order and the players connected.
pub play : List Event → State → Option State
play evs s = do
  (bs, t) ← update_balls evs s.balls (record { scores = s.scores; death_count = s.death_count })
  (bs', t') ← collide_all (length bs) bs t
  some (record s { balls = bs'; scores = t'.scores; death_count = t'.death_count })

pub next_frame : State → State
next_frame s = record s { frame = i32 (s.frame +ℤ pos 1) }

pub advance_sorted : List Event → State → Option State
advance_sorted evs ini = do
  s ← connect_all evs (next_frame ini)
  if truthy s.paused then some s else play evs s

module _ (qsort : (Event → Event → ℤ) → List Event → List Event) where
  unfoldable pub sort_events : List Event → List Event
  sort_events evs = if ltb 0 (length evs) then qsort compare_events evs else evs

  -- The next state, beside the caller's events in the order that the call leaves them in.
  pub advance_state : State → List Event → Option (State × List Event)
  advance_state ini evs =
      let sorted = sort_events evs in do s ← advance_sorted sorted ini; some (s, sorted)
