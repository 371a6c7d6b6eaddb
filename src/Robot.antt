-- ===== src/Robot.antt =====
-- The car pool robot, dida/fly/js/admin/spd/robot.js: it finds the cities of the two ends of each
-- plan, with `getCityByPoi` of dida/fly/js/bmoon.dida.js, and posts the plan.
pub mod Order
pub mod Posts
pub mod Saved
pub mod Queue
pub mod Google
mod Examples
use cmoon.Base.{
  ℕ, zero, suc, String, Bool, true, false, ◌&&◌, List, [], ◌∷◌, ◌++◌, Option, none, some, ltb, ◌==◌,
  if◌then◌else◌, Exit, finished, uri_error, type_error,
}

-- What a plan holds of the two ends. A city's id is a number, and 0 is no id. `placed` says that
-- `rect`, `sgeo` and `egeo` were made, of `sll` and `ell`; `km` is in hundredths.
pub record Plan (Point : Type 0) : Type 0 where
  pub id : ℕ
  pub saddr : String
  pub eaddr : String
  pub sll : Option Point
  pub ell : Option Point
  pub scityid : ℕ
  pub ecityid : ℕ
  pub placed : Option (Point × Point)
  pub km : Option ℕ
  pub repeat : ℕ
  pub statu : ℕ

-- What one end waits for: `getPoint`, `getLocation`, or the answer for the first of some names.
pub data Waits : Type 0 where
  point place : Waits
  city : String → List String → Waits
  nothing : Waits

pub data End : Type 0 where
  start finish : End

-- The answers: a point or none, the address components or no result, and a city's id or none.
pub data Answer (Point : Type 0) : Type 0 where
  got_point : Option Point → Answer Point
  got_place : Option (String × (String × String)) → Answer Point
  got_city : Option ℕ → Answer Point

-- A plan that is worked on: the object that the callbacks of both ends share. A post is logged with
-- the plan as it is then.
pub record Task (Point : Type 0) : Type 0 where
  pub plan : Plan Point
  pub at_start : Waits
  pub at_finish : Waits
  pub posts : List (Plan Point)

abbrev pub is_set : ℕ → Bool
is_set n = ltb 0 n

-- `earth_dis` is `bmoon.utl.earthDis`, the text of a number with two digits behind the point.
module _ {Point : Type 0} (earth_dis : Point → Point → ℕ) where
  abbrev pub waits_at : End → Task Point → Waits
  waits_at start t = t.at_start
  waits_at finish t = t.at_finish

  abbrev pub wait : End → Waits → Task Point → Task Point
  wait start w t = record t { at_start = w }
  wait finish w t = record t { at_finish = w }

  abbrev pub post : Task Point → Task Point
  post t = record t { posts = t.posts ++ t.plan ∷ [] }

  -- `parsePlanErr`
  unfoldable pub parse_plan_err : Task Point → Task Point
  parse_plan_err t = post (record t { plan = record t.plan { statu = 11 } })

  abbrev pub set_point : End → Point → Task Point → Task Point
  set_point start p t = record t { plan = record t.plan { sll = some p } }
  set_point finish p t = record t { plan = record t.plan { ell = some p } }

  -- What is made of the two points; a missing one has no `join`.
  unfoldable pub place_plan : Task Point → Task Point × Exit
  place_plan t = elim t.plan.sll [
    | none ↦ (t, type_error)
    | some a ↦ elim t.plan.ell [
      | none ↦ (t, type_error)
      | some b ↦ (
        record t { plan = record t.plan { placed = some (a, b); km = some (earth_dis a b) } },
        finished,
      )
    ]
  ]

  abbrev is_far : Option ℕ → Bool
  is_far none = false
  is_far (some n) = ltb 12000 n

  abbrev pub is_misfit : Plan Point → Bool
  is_misfit p = ltb 0 p.repeat && is_far p.km

  -- A plan that repeats is not to be a long one. It is posted in any case.
  unfoldable pub check_plan : Task Point → Task Point
  unfolding parse_plan_err
  check_plan t = post (if is_misfit t.plan then parse_plan_err t else t)

  abbrev pub check_placed : Task Point × Exit → Task Point × Exit
  check_placed (t, finished) = (check_plan t, finished)
  check_placed (t, uri_error) = (t, uri_error)
  check_placed (t, type_error) = (t, type_error)

  -- The callback of `getCityByPoi` at each end with a city.
  unfoldable pub found : End → ℕ → Task Point → Task Point × Exit
  unfolding place_plan check_plan
  found start c t = (record t { plan = record t.plan { scityid = c } }, finished)
  found finish c t =
      let u : Task Point = record t { plan = record t.plan { ecityid = c } } in
      if is_set u.plan.scityid && is_set c then check_placed (place_plan u) else (u, finished)

  -- An answer to what an end waits for; any other is none of its callbacks. `addressComponents` is
  -- read of no result too, and throws there.
  unfoldable pub answered : End → Waits → Answer Point → Task Point → Task Point × Exit
  unfolding parse_plan_err found
  answered x point (got_point none) t = (parse_plan_err (wait x nothing t), finished)
  answered x point (got_point (some p)) t = (wait x place (set_point x p t), finished)
  answered x point (got_place o) t = (t, finished)
  answered x point (got_city o) t = (t, finished)
  answered x place (got_place (some (d, (c, p)))) t = (wait x (city d (c ∷ p ∷ [])) t, finished)
  answered x place (got_place none) t = (wait x nothing t, type_error)
  answered x place (got_point o) t = (t, finished)
  answered x place (got_city o) t = (t, finished)
  answered x (city n ns) (got_city (some c)) t = found x c (wait x nothing t)
  answered x (city n (m ∷ ms)) (got_city none) t = (wait x (city m ms) t, finished)
  answered x (city n []) (got_city none) t = (parse_plan_err (wait x nothing t), finished)
  answered x (city n ns) (got_point o) t = (t, finished)
  answered x (city n ns) (got_place o) t = (t, finished)
  answered x nothing a t = (t, finished)

  unfoldable pub answer : End → Answer Point → Task Point → Task Point × Exit
  unfolding answered
  answer x a t = answered x (waits_at x t) a t

  unfoldable pub answers : List (End × Answer Point) → Task Point → Task Point
  unfolding answer
  answers [] t = t
  answers ((x, a) ∷ xs) t = answers xs (answer x a t).0

  -- `parsePlan` for one plan.
  unfoldable pub parse_plan : Plan Point → Task Point
  parse_plan p = record { plan = p; at_start = point; at_finish = point; posts = [] }
