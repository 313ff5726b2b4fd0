-- ===== src/Balls/Advance/Rounds.antt =====
-- The loops of `advance_state` over the balls stay inside its arrays on a well-formed state, and
-- leave every ball in the arena.
use sasd_protocols.Prelude.{
  ℕ, zero, suc, ◌≡◌, ◌≢◌, refl, ap, ◌∙◌, pos, ◌≤ℤ◌, leb_ℤ, List, [], ◌∷◌, length, All, Returns,
  Returns-bind, Bool-cases, inl, inr, arith,
}
use sasd_protocols.Balls.Types.{Ball, State, Event, InArena, IsBall, IsWellFormed}
use sasd_protocols.Balls.Collide.{Killed, collide_balls, reset_ball}
use sasd_protocols.Balls.Collide.Bounds.{
  reset_ball-InArena, reset_ball-IsBall, collide-InArena, collide-IsBall, killed_players,
}
use sasd_protocols.Balls.Advance.Move.{steer, limit_speed, move, outside}
use sasd_protocols.Balls.Advance.Move.Bounds.{move-InArena, steer-IsBall, moved-IsBall}
use sasd_protocols.Balls.Advance.Score.{Tally, death}
use sasd_protocols.Balls.Advance.Score.Total.{
  IsTally, lose_point-Returns, win_point-Returns, death-IsTally,
}
use sasd_protocols.Balls.Advance.{
  leave, update_ball, update_balls, settle, collide_with, collide_all, play,
}

abbrev pub Inside : Ball → Type 0
Inside b = IsBall b × InArena b

abbrev MovedOne : Ball × Tally → Type 0
MovedOne r = Inside r.0 × IsTally r.1

leave-Returns : (b : Ball) (t : Tally) → IsBall b → IsTally t → Returns MovedOne (leave b t)
unfolding leave
leave-Returns b t v u = elim (Bool-cases (leb_ℤ (pos 0) b.player)) [
  | inl e ↦ rw e (
      Returns-bind IsTally MovedOne _ _
        (lose_point-Returns (death t) b.player (death-IsTally t u) (ground arith) v.high)
        λ t' u'. (
          (reset_ball b t.death_count, t'),
          refl,
          ((reset_ball-IsBall b t.death_count v, reset_ball-InArena b t.death_count), u'),
        ))
  | inr e ↦ rw e (
    (reset_ball b t.death_count, death t),
    refl,
    ((reset_ball-IsBall b t.death_count v, reset_ball-InArena b t.death_count), death-IsTally t u),
  )
]

update_ball-Returns :
    (evs : List Event) (b : Ball) (t : Tally)
    → IsBall b
    → IsTally t
    → Returns MovedOne (update_ball evs b t)
unfolding update_ball
update_ball-Returns evs b t v u =
    let moved = moved-IsBall (steer evs b) (steer-IsBall evs b v) in
    elim (Bool-cases (outside (move (limit_speed (steer evs b))))) [
      | inl e ↦ rw e (leave-Returns _ t moved u)
      | inr e ↦ rw e (_, refl, ((moved, move-InArena (steer evs b) e), u))
    ]

-- The balls that a loop leaves, as many as it was given, all in the arena.
abbrev MovedAll : ℕ → List Ball × Tally → Type 0
MovedAll n r = (length r.0 ≡ n) × All Inside r.0 × IsTally r.1

update_balls-Returns :
    (evs : List Event) (bs : List Ball) (t : Tally)
    → All IsBall bs
    → IsTally t
    → Returns (MovedAll (length bs)) (update_balls evs bs t)
unfolding update_balls
update_balls-Returns evs [] t v u = (([], t), refl, (refl, tt, u))
update_balls-Returns evs (b ∷ bs) t (vb, vbs) u =
    Returns-bind MovedOne (MovedAll (length (b ∷ bs))) _ _ (update_ball-Returns evs b t vb u) λ r m.
      Returns-bind (MovedAll (length bs)) (MovedAll (length (b ∷ bs))) _ _
        (update_balls-Returns evs bs r.1 vbs m.1)
        λ q l. ((r.0 ∷ q.0, q.1), refl, (ap suc l.0, (m.0, l.1), l.2))

abbrev Settled : Ball × Ball × Tally → Type 0
Settled r = Inside r.0 × Inside r.1 × IsTally r.2

abbrev Reaches : ℕ → Ball × List Ball × Tally → Type 0
Reaches n r = Inside r.0 × (length r.1 ≡ n) × All Inside r.1 × IsTally r.2

settle-Returns :
    (killed : Killed) (a b : Ball) (t : Tally)
    → Inside a
    → Inside b
    → IsTally t
    → (killed ≢ Killed.nobody → (pos 0 ≤ℤ a.player) × (pos 0 ≤ℤ b.player))
    → Returns Settled (settle killed a b t)
unfolding settle
settle-Returns Killed.nobody a b t va vb u h = (_, refl, (va, vb, u))
settle-Returns Killed.first a b t va vb u h =
    Returns-bind IsTally Settled _ _ (win_point-Returns t b.player u (h (λ e. cc)).1 vb.0.high)
      λ t' u'. (
        (reset_ball a t.death_count, b, death t'),
        refl,
        (
          (reset_ball-IsBall a t.death_count va.0, reset_ball-InArena a t.death_count),
          vb,
          death-IsTally t' u',
        ),
      )
settle-Returns Killed.second a b t va vb u h =
    Returns-bind IsTally Settled _ _ (win_point-Returns t a.player u (h (λ e. cc)).0 va.0.high)
      λ t' u'. (
        (a, reset_ball b t.death_count, death t'),
        refl,
        (
          va,
          (reset_ball-IsBall b t.death_count vb.0, reset_ball-InArena b t.death_count),
          death-IsTally t' u',
        ),
      )

collide_with-Returns :
    (a : Ball) (bs : List Ball) (t : Tally)
    → Inside a
    → All Inside bs
    → IsTally t
    → Returns (Reaches (length bs)) (collide_with a bs t)
unfolding collide_with
collide_with-Returns a [] t va vbs u = (_, refl, (va, refl, tt, u))
collide_with-Returns a (b ∷ bs) t va (vb, vbs) u =
    let hit = collide_balls a b in
    let (ka, kb) = collide-IsBall a b va.0 vb.0 in
    let (ia, ib) = collide-InArena a b va.1 vb.1 in
    Returns-bind Settled (Reaches (length (b ∷ bs))) _ _
      (settle-Returns hit.0 hit.1 hit.2 t (ka, ia) (kb, ib) u (killed_players a b))
      λ r m.
        Returns-bind (Reaches (length bs)) (Reaches (length (b ∷ bs))) _ _
          (collide_with-Returns r.0 bs r.2 m.0 vbs m.2)
          λ q l. ((q.0, r.1 ∷ q.1, q.2), refl, (l.0, ap suc l.1, (m.1, l.2), l.3))

collide_all-Returns :
    (left : ℕ) (bs : List Ball) (t : Tally)
    → All Inside bs
    → IsTally t
    → Returns (MovedAll (length bs)) (collide_all left bs t)
unfolding collide_all
collide_all-Returns zero bs t vbs u = (_, refl, (refl, vbs, u))
collide_all-Returns (suc left) [] t vbs u = (_, refl, (refl, vbs, u))
collide_all-Returns (suc left) (a ∷ bs) t (va, vbs) u =
    Returns-bind (Reaches (length bs)) (MovedAll (length (a ∷ bs))) _ _
      (collide_with-Returns a bs t va vbs u)
      λ r m.
        Returns-bind (MovedAll (length r.1)) (MovedAll (length (a ∷ bs))) _ _
          (collide_all-Returns left r.1 r.2 m.2 m.3)
          λ q l. ((r.0 ∷ q.0, q.1), refl, (ap suc (l.0 ∙ m.1), (m.0, l.1), l.2))

-- A state that was played: the balls are in the arena, and the frame is as it was.
abbrev pub IsPlayed : State → State → Type 0
IsPlayed s0 s = IsWellFormed s × All InArena s.balls × (s.frame ≡ s0.frame) × (s.paused ≡ s0.paused)

All-fst : (bs : List Ball) → All Inside bs → All IsBall bs × All InArena bs
All-fst [] h = (tt, tt)
All-fst (b ∷ bs) (h, hs) = let (l, r) = All-fst bs hs in ((h.0, l), (h.1, r))

pub play-Returns :
    (evs : List Event) (s : State) → IsWellFormed s → Returns (IsPlayed s) (play evs s)
unfolding play
play-Returns evs s w =
    Returns-bind (MovedAll (length s.balls)) (IsPlayed s) _ _
      (update_balls-Returns evs s.balls (record { scores = s.scores; death_count = s.death_count })
        w.players w.scores_length)
      λ r m.
        Returns-bind (MovedAll (length r.0)) (IsPlayed s) _ _
          (collide_all-Returns (length r.0) r.0 r.1 m.1 m.2)
          λ q l.
            let (players, inside) = All-fst q.0 l.1 in
            (
              record s { balls = q.0; scores = q.1.scores; death_count = q.1.death_count },
              refl,
              (
                record {
                  scores_length = l.2;
                  balls_length = l.0 ∙ m.0 ∙ w.balls_length;
                  players = players;
                },
                inside,
                refl,
                refl,
              ),
            )
