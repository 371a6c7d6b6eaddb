-- ===== src/Search/Pager.antt =====
-- The pages of the plans that were found: in a session the links lead to plans that are there.
use cmoon.Base.{
  subst, sym, ℕ, ◌+◌, ◌<◌, ◌≡◌, refl, Bool, true, false, Option, none, some, length, get_elem?, ltb,
  ◌==◌, if◌then◌else◌, Text, All, Exit, finished,
}
use cmoon.Member.Points.{corners}
use cmoon.Search.{Search, Answer, matched, failed}
use cmoon.Search.Cards.{Found}
use cmoon.Search.Shown.{IsShown}
use cmoon.Search.Run.{
  Event, press_match, press_prev, press_next, fill, answered, dragged, confirmed, point_came,
  city_came, press_leave, leave_answered,
}
use cmoon.Search.Kept.{Pages, pages_of, Kept}

abbrev pub is_some : {A : Type 0} → Option A → Bool
is_some none = false
is_some (some a) = true

-- `dbbox2ll` does not throw at the box of the plan, and its site is in the table of sites.
abbrev pub IsBoxed : Found → Type 0
IsBoxed f = (is_some (corners f.rect) ≡ true) × (f.ori < 5)

-- A plan is shown that is there, with its number, all that the page tells of it, and the links to
-- those beside it.
pub record IsPage (p : Pages) : Type 0 where
  pub inside : p.pcur < length p.mplans
  pub plan : Found
  pub is_there : get_elem? p.mplans p.pcur ≡ some plan
  pub is_shown : IsShown plan p.card
  pub whole : p.pnum ≡ length p.mplans
  pub number : p.num_nav ≡ (p.pcur + 1, p.pnum)
  pub to_prev : p.prev_shown ≡ ltb 0 p.pcur
  pub to_next : p.next_shown ≡ ltb (p.pcur + 1) p.pnum
  pub boxed : All IsBoxed p.mplans

abbrev pub IsPageIf : Bool → Pages → Type 0
IsPageIf true p = IsPage p
IsPageIf false p = Unit

abbrev pub IsPaged : Pages → Type 0
IsPaged p = IsPageIf p.nav_shown p

-- An answer with plans has all of them, and at least one; the map has the address of a marker.
abbrev pub IsWhole : Answer → Type 0
IsWhole (matched ntt plans) =
    (0 < length plans)
    × ((if ntt == 0 then length plans else ntt) ≡ length plans)
    × All IsBoxed plans
IsWhole (failed errmsg errcode) = Unit

abbrev pub IsWholeEvent : {Point : Type 0} → Event Point → Type 0
IsWholeEvent (answered a) = IsWhole a
IsWholeEvent press_match = Unit
IsWholeEvent press_prev = Unit
IsWholeEvent press_next = Unit
IsWholeEvent (fill i) = Unit
IsWholeEvent (dragged x o) = is_some o ≡ true
IsWholeEvent (confirmed x d) = Unit
IsWholeEvent (point_came x o) = Unit
IsWholeEvent (city_came x c) = Unit
IsWholeEvent (press_leave r) = Unit
IsWholeEvent (leave_answered o) = Unit

module _ {Point : Type 0} (earth_dis : Point → Point → ℕ) (someone thanks : Text) where
  abbrev Runs : Search Point × Exit → Type 0
  Runs r = (r.1 ≡ finished) × IsPaged (pages_of r.0)

  stays : (s t : Search Point) → Kept s t → IsPaged (pages_of s) → Runs (t, finished)
  stays s t e h = (refl, subst IsPaged (sym e.0) h)
