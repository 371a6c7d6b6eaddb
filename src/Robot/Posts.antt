-- ===== src/Robot/Posts.antt =====
-- What the robot posts of a plan.
use cmoon.Base.{
  subst, sym, Bool-cases, Option-cases, ℕ, ◌≡◌, refl, ◌⊎◌, inl, inr, Bool, true, false, ◌&&◌, List,
  [], ◌∷◌, Option, none, some, All, Exit, finished, type_error, arith,
}
use cmoon.Robot.{
  Plan, Waits, point, place, city, nothing, End, start, finish, Answer, got_point, got_place,
  got_city, Task, is_set, parse_plan_err, found, answered, answer, answers, check_plan,
  check_placed, place_plan, parse_plan, post, is_misfit, waits_at,
}
use cmoon.Robot.Saved.{both_points}
use cmoon.Robot.Order.{IsMark, All-append}

abbrev pub is_none : {A : Type 0} → Option A → Bool
is_none none = true
is_none (some a) = false

-- These come after a point.
abbrev pub needs_point : Waits → Bool
needs_point point = false
needs_point place = true
needs_point (city n ns) = true
needs_point nothing = false

-- Only an address without a result throws, where one is waited for.
abbrev pub exit_of : {Point : Type 0} → Waits → Answer Point → Exit
exit_of w (got_city o) = finished
exit_of w (got_point o) = finished
exit_of w (got_place (some d)) = finished
exit_of point (got_place none) = finished
exit_of place (got_place none) = type_error
exit_of (city n ns) (got_place none) = finished
exit_of nothing (got_place none) = finished

module _ {Point : Type 0} (earth_dis : Point → Point → ℕ) where
  -- A plan with both cities, whose box and length are those of its two points.
  pub record IsSaved (p : Plan Point) : Type 0 where
    pub from_city : is_set p.scityid ≡ true
    pub to_city : is_set p.ecityid ≡ true
    pub from_point : Point
    pub to_point : Point
    pub has_from : p.sll ≡ some from_point
    pub has_to : p.ell ≡ some to_point
    pub has_box : p.placed ≡ some (from_point, to_point)
    pub has_km : p.km ≡ some (earth_dis from_point to_point)

  abbrev pub IsGood : Plan Point → Type 0
  IsGood p = IsMark p ⊎ IsSaved p

  pub record IsSound (t : Task Point) : Type 0 where
    pub known : (is_set t.plan.scityid && is_none t.plan.sll) ≡ false
    pub start_located : (needs_point t.at_start && is_none t.plan.sll) ≡ false
    pub finish_located : (needs_point t.at_finish && is_none t.plan.ell) ≡ false
    pub good : All IsGood t.posts

  pub marked : (t : Task Point) → IsSound t → IsSound (parse_plan_err earth_dis t)
  unfolding parse_plan_err
  marked t h = record {
    known = h.known;
    start_located = h.start_located;
    finish_located = h.finish_located;
    good = All-append IsGood t.posts (record t.plan { statu = 11 }) h.good (inl refl);
  }

  posted : (t : Task Point) → IsGood t.plan → IsSound t → IsSound (post earth_dis t)
  posted t p h = record {
    known = h.known;
    start_located = h.start_located;
    finish_located = h.finish_located;
    good = All-append IsGood t.posts t.plan h.good p;
  }

  checked : (t : Task Point) → IsSaved t.plan → IsSound t → IsSound (check_plan earth_dis t)
  unfolding check_plan parse_plan_err
  checked t s h = elim (Bool-cases (is_misfit earth_dis t.plan)) [
    | inl e ↦ rw (check_plan, e) (posted (parse_plan_err earth_dis t) (inl refl) (marked t h))
    | inr e ↦ rw (check_plan, e) (posted t (inr s) h)
  ]

  -- A step that ends in this way and keeps this.
  abbrev pub Ends : Exit → Task Point × Exit → Type 0
  Ends e r = (r.1 ≡ e) × IsSound r.0

  -- One that throws nothing.
  abbrev pub Runs : Task Point × Exit → Type 0
  Runs r = Ends finished r

  placed_Runs :
      (a b : Point) (t : Task Point)
      → is_set t.plan.scityid ≡ true
      → is_set t.plan.ecityid ≡ true
      → t.plan.sll ≡ some a
      → t.plan.ell ≡ some b
      → IsSound t
      → Runs (check_placed earth_dis (place_plan earth_dis t))
  placed_Runs a b t k l e f h =
      let u : Task Point = record t {
        plan = record t.plan { placed = some (a, b); km = some (earth_dis a b) };
      } in
      let saved : IsSaved u.plan = record {
        from_city = k;
        to_city = l;
        from_point = a;
        to_point = b;
        has_from = e;
        has_to = f;
        has_box = refl;
        has_km = refl;
      } in
      let sound : IsSound u = record {
        known = h.known;
        start_located = h.start_located;
        finish_located = h.finish_located;
        good = h.good;
      } in
      subst (λ r. Runs (check_placed earth_dis r)) (sym (both_points earth_dis a b t e f))
        (refl, checked u saved sound)

  found_finish :
      (c : ℕ) (t : Task Point)
      → IsSound t
      → is_none t.plan.ell ≡ false
      → Runs (found earth_dis finish c t)
  unfolding found
  found_finish c t h e =
      let u : Task Point = record t { plan = record t.plan { ecityid = c } } in
      let sound : IsSound u = record {
        known = h.known;
        start_located = h.start_located;
        finish_located = h.finish_located;
        good = h.good;
      } in
      elim (Bool-cases (is_set t.plan.scityid && is_set c)) [
        | inr k ↦ rw (found, k) (refl, sound)
        | inl k ↦ elim (Option-cases t.plan.sll) [
          | inl none_yet ↦ absurd (ground (arith, h.known, k, none_yet))
          | inr (a, ea) ↦ elim (Option-cases t.plan.ell) [
            | inl no_end ↦ absurd (ground (arith, e, no_end))
            | inr (b, eb) ↦
                rw (found, k)
                  (placed_Runs a b u (ground (arith, k)) (ground (arith, k)) ea eb sound)
          ]
        ]
      ]

  pub answered-Ends :
      (x : End) (w : Waits) (a : Answer Point) (t : Task Point)
      → waits_at earth_dis x t ≡ w
      → IsSound t
      → Ends (exit_of w a) (answered earth_dis x w a t)
  unfolding answered found
  answered-Ends x point (got_place none) t e h = (refl, h)
  answered-Ends x point (got_place (some d)) t e h = (refl, h)
  answered-Ends x point (got_city o) t e h = (refl, h)
  answered-Ends start point (got_point none) t e h = (
    refl,
    marked (record t { at_start = nothing })
        (record {
          known = h.known;
          start_located = refl;
          finish_located = h.finish_located;
          good = h.good;
        }),
  )
  answered-Ends finish point (got_point none) t e h = (
    refl,
    marked (record t { at_finish = nothing })
        (record {
          known = h.known;
          start_located = h.start_located;
          finish_located = refl;
          good = h.good;
        }),
  )
  answered-Ends start point (got_point (some p)) t e h = (refl, ground arith)
  answered-Ends finish point (got_point (some p)) t e h = (refl, ground arith)
  answered-Ends start place (got_place (some (d, (c, p)))) t e h = (refl, ground arith)
  answered-Ends finish place (got_place (some (d, (c, p)))) t e h = (refl, ground arith)
  answered-Ends start place (got_place none) t e h = (refl, ground arith)
  answered-Ends finish place (got_place none) t e h = (refl, ground arith)
  answered-Ends x place (got_point o) t e h = (refl, h)
  answered-Ends x place (got_city o) t e h = (refl, h)
  answered-Ends start (city n ns) (got_city (some c)) t e h = (refl, ground arith)
  answered-Ends finish (city n ns) (got_city (some c)) t e h =
      found_finish c (record t { at_finish = nothing })
        (record {
          known = h.known;
          start_located = h.start_located;
          finish_located = refl;
          good = h.good;
        })
        (ground (arith, h.finish_located, e))
  answered-Ends start (city n (m ∷ ms)) (got_city none) t e h = (refl, ground arith)
  answered-Ends finish (city n (m ∷ ms)) (got_city none) t e h = (refl, ground arith)
  answered-Ends start (city n []) (got_city none) t e h = (
    refl,
    marked (record t { at_start = nothing })
        (record {
          known = h.known;
          start_located = refl;
          finish_located = h.finish_located;
          good = h.good;
        }),
  )
  answered-Ends finish (city n []) (got_city none) t e h = (
    refl,
    marked (record t { at_finish = nothing })
        (record {
          known = h.known;
          start_located = h.start_located;
          finish_located = refl;
          good = h.good;
        }),
  )
  answered-Ends x (city n ns) (got_point o) t e h = (refl, h)
  answered-Ends x (city n ns) (got_place none) t e h = (refl, h)
  answered-Ends x (city n ns) (got_place (some d)) t e h = (refl, h)
  answered-Ends x nothing (got_point o) t e h = (refl, h)
  answered-Ends x nothing (got_place none) t e h = (refl, h)
  answered-Ends x nothing (got_place (some d)) t e h = (refl, h)
  answered-Ends x nothing (got_city o) t e h = (refl, h)

  answer-Ends :
      (x : End) (a : Answer Point) (t : Task Point)
      → IsSound t
      → Ends (exit_of (waits_at earth_dis x t) a) (answer earth_dis x a t)
  unfolding answer
  answer-Ends x a t h = answered-Ends x (waits_at earth_dis x t) a t refl h

  answers-IsSound :
      (xs : List (End × Answer Point)) (t : Task Point)
      → IsSound t
      → IsSound (answers earth_dis xs t)
  unfolding answers
  answers-IsSound [] t h = h
  answers-IsSound ((x, a) ∷ xs) t h =
      answers-IsSound xs (answer earth_dis x a t).0 (answer-Ends x a t h).1

  -- From a plan whose start has no city yet, after any answers in any order: the next answer throws
  -- exactly if it is no result for an address that its end waits for, and every plan that was posted is
  -- marked as one with errors or has both cities, both points, and the box and the length of these
  -- points.
  pub posts-IsGood :
      (p : Plan Point) (xs : List (End × Answer Point)) (x : End) (a : Answer Point)
      → p.scityid ≡ 0
      → ((answer earth_dis x a (answers earth_dis xs (parse_plan earth_dis p))).1
          ≡ exit_of (waits_at earth_dis x (answers earth_dis xs (parse_plan earth_dis p))) a)
        × All IsGood (answers earth_dis xs (parse_plan earth_dis p)).posts
  unfolding parse_plan
  posts-IsGood p xs x a h =
      let fresh : Task Point = record {
        plan = p;
        at_start = point;
        at_finish = point;
        posts = [];
      } in
      let sound : IsSound (answers earth_dis xs fresh) = answers-IsSound xs fresh (record {
        known = ground (arith, h);
        start_located = refl;
        finish_located = refl;
        good = tt;
      }) in
      ((answer-Ends x a (answers earth_dis xs fresh) sound).0, sound.good)
