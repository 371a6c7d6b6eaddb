-- ===== src/Search/Run.antt =====
-- A session of the car pool search: what happens at the page, in any order.
use cmoon.Base.{
  ℕ, ◌+◌, ◌-◌, Bool, ◌&&◌, List, [], ◌∷◌, Option, none, some, if◌then◌else◌, Text, Exit, finished,
  type_error, ◌>>=◌,
}
use cmoon.Search.{End, Poi, Inputs, Search, Answer, rend_plan, match_plan, on_match}
use cmoon.Search.Making.{leave_plan, on_leave, up_plan, on_point, on_city, mark_draged}

-- What happens at the page: a link that is not shown is not clicked. The map may have no address for
-- a marker that was dragged, of which the callback then reads.
pub data Event (Point : Type 0) : Type 0 where
  press_match press_prev press_next : Event Point
  fill : Inputs → Event Point
  answered : Answer → Event Point
  dragged : End → Option (Text × Poi Point) → Event Point
  confirmed : End → Poi Point → Event Point
  point_came : End → Option Point → Event Point
  city_came : End → ℕ → Event Point
  press_leave : Bool → Event Point
  leave_answered : Option Text → Event Point

-- `earth_dis` is `bmoon.utl.earthDis`; `someone` and `thanks` are words of the page.
module _ {Point : Type 0} (earth_dis : Point → Point → ℕ) (someone thanks : Text) where
  unfoldable pub step : Event Point → Search Point → Search Point × Exit
  step press_match s = (match_plan earth_dis s, finished)
  step press_prev s =
      if s.nav_shown && s.prev_shown then rend_plan earth_dis (s.pcur - 1) s else (s, finished)
  step press_next s =
      if s.nav_shown && s.next_shown then rend_plan earth_dis (s.pcur + 1) s else (s, finished)
  step (fill i) s = (record s { inputs = i }, finished)
  step (answered a) s = on_match earth_dis a s
  step (dragged x none) s = (s, type_error)
  step (dragged x (some (t, d))) s = (mark_draged earth_dis x t d s, finished)
  step (confirmed x d) s = (up_plan earth_dis x d s, finished)
  step (point_came x o) s = (on_point earth_dis x o s, finished)
  step (city_came x c) s = (on_city earth_dis x c s, finished)
  step (press_leave r) s = (leave_plan earth_dis someone r s, finished)
  step (leave_answered o) s = (on_leave earth_dis thanks o s, finished)

  -- A session ends where a handler throws.
  unfoldable pub run : List (Event Point) → Search Point → Search Point × Exit
  run [] s = (s, finished)
  run (e ∷ es) s = step e s >>= run es
