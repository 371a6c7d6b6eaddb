-- ===== src/Search.antt =====
-- The car pool search, dida/fly/js/index.js: the plan that is made up from the two ends, the search for
-- plans that match, the pages of what was found, and the plan that is left. The map itself, its
-- markers and info windows are left out. Search/Cards has what is shown of a plan that was found.
pub mod Cards
pub mod Shown
pub mod Making
pub mod Run
pub mod Kept
pub mod Pager
pub mod Asked
pub mod Subscribing
mod Examples
use cmoon.Base.{
  ℕ, zero, suc, ◌+◌, ◌-◌, String, Bool, true, false, not, ◌&&◌, ◌||◌, List, [], ◌∷◌, ◌++◌, Option,
  none, some, length, get_elem?, ltb, ◌==◌, if◌then◌else◌, Text, units, Exit, finished, type_error,
}
use cmoon.Forms.{Marks, load, settle, note}
use cmoon.Member.Points.{corners}
use cmoon.Search.Cards.{Found, Card, rend_card}

pub data End : Type 0 where
  start finish : End

-- `placed` says that `rect`, `sgeo` and `egeo` were made, of `sll` and `ell`; `km` is in hundredths.
-- An id that is not set is 0, and a text that is not is empty.
pub record Plan (Point : Type 0) : Type 0 where
  pub saddr : Text
  pub eaddr : Text
  pub sll : Option Point
  pub ell : Option Point
  pub scityid : ℕ
  pub ecityid : ℕ
  pub placed : Option (Point × Point)
  pub km : Option ℕ
  pub dad : ℕ
  pub date : Text
  pub time : Text
  pub repeat : ℕ
  pub sdate : Text
  pub stime : Text
  pub phone : Text
  pub contact : Text
  pub nick : Text
  pub attach : Text
  pub subscribe : ℕ

pub data Request (Point : Type 0) : Type 0 where
  match_request : Plan Point → Request Point
  leave_request : Plan Point → Request Point

-- The parts of an address and, where it is known, its point.
pub record Poi (Point : Type 0) : Type 0 where
  pub province : Text
  pub city : Text
  pub district : Text
  pub street : Text
  pub street_number : Text
  pub business : Text
  pub point : Option Point

-- The fields of the page.
pub record Inputs : Type 0 where
  pub dad : ℕ
  pub date : Text
  pub hour : Text
  pub min : Text
  pub repeat : ℕ
  pub wdays : List Text
  pub phone : Text
  pub contact : Text
  pub nick : Text
  pub attach : Text
  pub subscribes : List ℕ

-- `num_nav` is the pair of numbers that is shown; `line` and `km_shown` are what `rendDirect` draws.
pub record Search (Point : Type 0) : Type 0 where
  pub plan : Plan Point
  pub inputs : Inputs
  pub saddr : Text
  pub eaddr : Text
  pub mplans : List Found
  pub pnum : ℕ
  pub pcur : ℕ
  pub num_nav : ℕ × ℕ
  pub card : Card
  pub prev_shown : Bool
  pub next_shown : Bool
  pub nav_shown : Bool
  pub result_shown : Bool
  pub noresult_shown : Bool
  pub focus : Option End
  pub line : Option (Point × Point)
  pub km_shown : Option ℕ
  pub at_submit : Marks
  pub at_leave : Marks
  pub requests : List (Request Point)

-- `dbbox2ll(plan.rect)`, with `none` for an exception.
abbrev pub box_of : Found → Option ((Option Text × Option Text) × (Option Text × Option Text))
box_of f = corners f.rect

-- The answer to a search: the plans with the number of all or 0, or an error with its code.
pub data Answer : Type 0 where
  matched : ℕ → List Found → Answer
  failed : Text → ℕ → Answer

-- `earth_dis` is `bmoon.utl.earthDis`, the text of a number with two digits behind the point.
module _ {Point : Type 0} (earth_dis : Point → Point → ℕ) where
  -- `rendMatch`
  unfoldable pub rend_match : Found → ℕ → Search Point → Search Point × Exit
  unfolding rend_card
  rend_match f ncur s = (
    record s {
      pcur = ncur;
      prev_shown = ltb 0 ncur;
      next_shown = ltb (ncur + 1) s.pnum;
      num_nav = (ncur + 1, s.pnum);
      card = (rend_card f s.card).0;
      nav_shown = true;
      result_shown = true;
    },
    (rend_card f s.card).1,
  )

  abbrev pub rend_at :
      Option ((Option Text × Option Text) × (Option Text × Option Text))
      → Found
      → ℕ
      → Search Point
      → Search Point × Exit
  unfolding rend_match
  rend_at none f ncur s = (s, type_error)
  rend_at (some geo) f ncur s = rend_match f ncur s

  abbrev pub rend_in : Option Found → ℕ → Search Point → Search Point × Exit
  unfolding rend_at
  rend_in none ncur s = (s, type_error)
  rend_in (some f) ncur s = rend_at (box_of f) f ncur s

  -- `rendPlan`, which reads `rect` of the plan by `dbbox2ll` and throws where that does, or where there
  -- is no plan of the number.
  unfoldable pub rend_plan : ℕ → Search Point → Search Point × Exit
  unfolding rend_in
  rend_plan ncur s = rend_in (get_elem? s.mplans ncur) ncur s

  -- The plan as `matchPlan` completes it from the fields.
  unfoldable pub complete : Point → Point → Search Point → Plan Point
  complete a b s = record s.plan {
    dad = s.inputs.dad;
    date = s.inputs.date;
    time = s.inputs.hour ++ b':' ∷ s.inputs.min ++ units ":00";
    placed = some (a, b);
    km = some (earth_dis a b);
  }

  abbrev pub hide : Search Point → Search Point
  hide s = record s { noresult_shown = false; result_shown = false; nav_shown = false; mplans = [] }

  abbrev pub match_at : Option Point → Option Point → Search Point → Search Point
  match_at none o s = record s { focus = some start }
  match_at (some a) none s = record s { focus = some finish }
  match_at (some a) (some b) s =
      let p = complete a b s in
      record s {
        plan = p;
        at_submit = load "vres" s.at_submit;
        requests = s.requests ++ match_request p ∷ [];
      }

  -- `matchPlan`, to its request.
  unfoldable pub match_plan : Search Point → Search Point
  unfolding complete load
  match_plan s = match_at s.plan.sll s.plan.ell (hide s)

  -- The answer to `matchPlan`.
  unfoldable pub on_match : Answer → Search Point → Search Point × Exit
  unfolding settle rend_plan
  on_match (matched ntt plans) s =
      let n = if ntt == 0 then length plans else ntt in
      rend_plan 0 (record s {
        at_submit = settle "vres" none s.at_submit;
        pnum = n;
        mplans = plans;
        num_nav = (0, n);
      })
  on_match (failed errmsg errcode) s = (
    record s {
      at_submit = settle "vres" (some errmsg) s.at_submit;
      noresult_shown = (errcode == 35) || s.noresult_shown;
    },
    finished,
  )
