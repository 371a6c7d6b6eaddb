-- ===== src/Search/Kept.antt =====
-- What the building of a plan leaves as it is: the pages of what was found, and what was asked for.
use cmoon.Base.{ℕ, ◌≡◌, refl, Bool, List, Option, none, some, Option-cases, inl, inr}
use cmoon.Search.{End, start, finish, Poi, Search}
use cmoon.Search.Cards.{Found, Card}
use cmoon.Search.Making.{str_from_poi, draw, rend_direct, set_point, set_addr, up_plan}

-- The part of the state that shows the plans.
pub record Pages : Type 0 where
  pub nav_shown : Bool
  pub mplans : List Found
  pub pnum : ℕ
  pub pcur : ℕ
  pub num_nav : ℕ × ℕ
  pub card : Card
  pub prev_shown : Bool
  pub next_shown : Bool

abbrev pub pages_of : {Point : Type 0} → Search Point → Pages
pages_of s = record {
  nav_shown = s.nav_shown;
  mplans = s.mplans;
  pnum = s.pnum;
  pcur = s.pcur;
  num_nav = s.num_nav;
  card = s.card;
  prev_shown = s.prev_shown;
  next_shown = s.next_shown;
}

abbrev pub Kept : {Point : Type 0} → Search Point → Search Point → Type 0
Kept s t = (pages_of t ≡ pages_of s) × (t.requests ≡ s.requests)

module _ {Point : Type 0} (earth_dis : Point → Point → ℕ) where
  draw-Kept : (o p : Option Point) (s : Search Point) → Kept s (draw earth_dis o p s)
  draw-Kept none p s = (refl, refl)
  draw-Kept (some a) none s = (refl, refl)
  draw-Kept (some a) (some b) s = (refl, refl)

  pub set_point-Kept : (x : End) (a : Point) (s : Search Point) → Kept s (set_point earth_dis x a s)
  unfolding set_point rend_direct
  set_point-Kept start a s = (refl, refl)
  set_point-Kept finish a s =
      draw-Kept s.plan.sll (some a) (record s { plan = record s.plan { ell = some a } })

  pub up_plan-Kept : (x : End) (d : Poi Point) (s : Search Point) → Kept s (up_plan earth_dis x d s)
  unfolding up_plan
  up_plan-Kept start d s = elim (Option-cases d.point) [
    | inl e ↦ rw e (refl, refl)
    | inr (a, e) ↦ rw e (set_point-Kept start a (set_addr earth_dis start (str_from_poi d) s))
  ]
  up_plan-Kept finish d s = elim (Option-cases d.point) [
    | inl e ↦ rw e (refl, refl)
    | inr (a, e) ↦ rw e (set_point-Kept finish a (set_addr earth_dis finish (str_from_poi d) s))
  ]
