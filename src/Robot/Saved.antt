-- ===== src/Robot/Saved.antt =====
-- What the robot posts of a plan whose start is found first.
use cmoon.Base.{
  ap, ◌∙◌, Bool-cases, ℕ, ◌≡◌, refl, inl, inr, true, List, [], ◌∷◌, ◌++◌, some, String,
  if◌then◌else◌, Exit, finished, arith,
}
use cmoon.Robot.{
  Plan, city, nothing, finish, got_city, Task, is_set, parse_plan_err, found, answered, answer,
  check_plan, check_placed, place_plan, is_misfit,
}

module _ {Point : Type 0} (earth_dis : Point → Point → ℕ) where
  pub both_points :
      (a b : Point) (t : Task Point)
      → t.plan.sll ≡ some a
      → t.plan.ell ≡ some b
      → place_plan earth_dis t ≡ (
        record t { plan = record t.plan { placed = some (a, b); km = some (earth_dis a b) } },
        finished,
      )
  unfolding place_plan
  both_points a b t e f = ground (arith, e, f)

  check_plan-posts :
      (t : Task Point)
      → let bad : Plan Point = record t.plan { statu = 11 } in
        (check_plan earth_dis t).posts ≡ (
          if is_misfit earth_dis t.plan
          then (t.posts ++ bad ∷ []) ++ bad ∷ []
          else t.posts ++ t.plan ∷ [])
  unfolding check_plan parse_plan_err
  check_plan-posts t = elim (Bool-cases (is_misfit earth_dis t.plan)) [
    | inl e ↦ rw (check_plan, e) refl
    | inr e ↦ rw (check_plan, e) refl
  ]

  found_lem :
      (c : ℕ) (a b : Point) (t : Task Point)
      → is_set t.plan.scityid ≡ true
      → is_set c ≡ true
      → t.plan.sll ≡ some a
      → t.plan.ell ≡ some b
      → found earth_dis finish c (record t { at_finish = nothing }) ≡ (
        check_plan earth_dis (record t {
          at_finish = nothing;
          plan = record t.plan { ecityid = c; placed = some (a, b); km = some (earth_dis a b) };
        }),
        finished,
      )
  unfolding found
  found_lem c a b t k l e f =
      let u : Task Point = record t { at_finish = nothing; plan = record t.plan { ecityid = c } } in
      rw (k, l, found) (ap (check_placed earth_dis) (both_points a b u e f))

  -- The city of the finish where that of the start is known: the plan is posted with both cities and
  -- with the box and the length of its points, unless it repeats and is longer than 120 km; then it
  -- is posted twice, marked.
  start_first :
      (n : String) (ns : List String) (c : ℕ) (a b : Point) (t : Task Point)
      → is_set t.plan.scityid ≡ true
      → is_set c ≡ true
      → t.plan.sll ≡ some a
      → t.plan.ell ≡ some b
      → t.at_finish ≡ city n ns
      → let full : Plan Point = record t.plan {
        ecityid = c;
        placed = some (a, b);
        km = some (earth_dis a b);
      } in
        let bad : Plan Point = record full { statu = 11 } in
        (answer earth_dis finish (got_city (some c)) t).0.posts ≡ (
          if is_misfit earth_dis full
          then (t.posts ++ bad ∷ []) ++ bad ∷ []
          else t.posts ++ full ∷ [])
  unfolding answer answered found check_plan parse_plan_err
  start_first n ns c a b t k l e f w =
      let u : Task Point = record t { at_finish = nothing; plan = record t.plan { ecityid = c } } in
      ap (λ v. (answered earth_dis finish v (got_city (some c)) t).0.posts) w
      ∙ (ap (λ (r : Task Point × Exit). r.0.posts) (found_lem c a b t k l e f)
          ∙ check_plan-posts (record u {
            plan = record u.plan { placed = some (a, b); km = some (earth_dis a b) };
          }))
