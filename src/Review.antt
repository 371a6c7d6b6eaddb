-- ===== src/Review.antt =====
-- The review of car pool plans, dida/fly/js/admin/spd/post.js: the plan under review, how many are
-- left, and what is posted. The map and its markers are left out, and so are the address boxes of
-- the map; a missing text of a plan is the empty one.
pub mod Posts
pub mod Left
mod Examples
use cmoon.Base.{
  ℕ, zero, suc, Bool, true, false, not, ◌||◌, List, [], ◌∷◌, ◌++◌, Option, none, some, ltb,
  if◌then◌else◌, Text,
}

pub data End : Type 0 where
  start finish : End

pub data ℤ : Type 0 where
  pos : ℕ → ℤ
  negsuc : ℕ → ℤ

-- `--mgd._ntt`
unfoldable pub pred_int : ℤ → ℤ
pred_int (pos zero) = negsuc 0
pred_int (pos (suc n)) = pos n
pred_int (negsuc n) = negsuc (suc n)

unfoldable pub is_positive : ℤ → Bool
is_positive (pos n) = ltb 0 n
is_positive (negsuc n) = false

-- `placed` says that `rect`, `sgeo` and `egeo` were made, of `sll` and `ell`; `km` is in hundredths.
-- An id that is not set is 0.
pub record Plan (Point : Type 0) : Type 0 where
  pub id : ℕ
  pub saddr : Text
  pub eaddr : Text
  pub sdate : Text
  pub stime : Text
  pub sll : Option Point
  pub ell : Option Point
  pub scityid : ℕ
  pub ecityid : ℕ
  pub placed : Option (Point × Point)
  pub km : Option ℕ
  pub phone : Text
  pub contact : Text

-- What the page sends: `/json/spd/post/do` with the id to leave out, or with a plan as it is then.
pub data Request (Point : Type 0) : Type 0 where
  get : ℕ → Request Point
  del : Plan Point → Request Point
  mod_plan : Plan Point → Request Point

-- A result of the map service: `geometry.location` and `formatted_address`.
pub record Place (Point : Type 0) : Type 0 where
  pub location : Point
  pub formatted_address : Text

-- `o.plan`, the plan objects before it with the newest first, `mgd._ntt`, the number that is shown,
-- the fields and the marks of the form, and what was sent.
pub record Review (Point : Type 0) : Type 0 where
  pub plan : Plan Point
  pub former : List (Plan Point)
  pub ntt : ℤ
  pub count : Option ℤ
  pub saddr : Text
  pub eaddr : Text
  pub sdate : Text
  pub stime : Text
  pub phone : Text
  pub contact : Text
  pub loading : Bool
  pub success : Bool
  pub error : Bool
  pub vres : List Text
  pub requests : List (Request Point)

abbrev pub is_set : Text → Bool
is_set [] = false
is_set (c ∷ s) = true

-- `earth_dis` is `bmoon.utl.earthDis`, the text of a number with two digits behind the point.
module _ {Point : Type 0} (earth_dis : Point → Point → ℕ) where
  abbrev pub send : Request Point → Review Point → Review Point
  send q r = record r { requests = r.requests ++ q ∷ [] }

  -- `getPlan`, to its request. An id of 0 stands for no id to leave out.
  unfoldable pub get_plan : Review Point → Review Point
  unfolding is_positive
  get_plan r = if not (is_positive r.ntt) then r else send (get r.plan.id) r

  -- The callback of `getPlan`, with a plan or none; an alert is left out.
  unfoldable pub on_plan : Option (Plan Point) → Review Point → Review Point
  unfolding pred_int
  on_plan none r = r
  on_plan (some p) r = record r {
    saddr = p.saddr;
    eaddr = p.eaddr;
    sdate = p.sdate;
    stime = p.stime;
    plan = p;
    former = r.plan ∷ r.former;
    ntt = pred_int r.ntt;
    count = some (pred_int r.ntt);
  }

  abbrev pub set_place : End → Place Point → Plan Point → Plan Point
  set_place start d p = record p { sll = some d.location; saddr = d.formatted_address }
  set_place finish d p = record p { ell = some d.location; eaddr = d.formatted_address }

  abbrev pub measure : Option Point → Option Point → Plan Point → Plan Point
  measure none o p = p
  measure (some a) none p = p
  measure (some a) (some b) p = record p { km = some (earth_dis a b) }

  -- `upPlan`, which begins the lookup of the city.
  unfoldable pub up_plan : End → Place Point → Review Point → Review Point
  up_plan x d r = let p = set_place x d r.plan in record r { plan = measure p.sll p.ell p }

  -- The callback of `geocode` in `markDraged`.
  unfoldable pub mark_draged : End → Place Point → Review Point → Review Point
  unfolding up_plan
  mark_draged start d r = up_plan start d (record r { saddr = d.formatted_address })
  mark_draged finish d r = up_plan finish d (record r { eaddr = d.formatted_address })

  abbrev pub set_city : End → ℕ → Plan Point → Plan Point
  set_city start c p = record p { scityid = c }
  set_city finish c p = record p { ecityid = c }

  abbrev pub at_former : ℕ → (Plan Point → Plan Point) → List (Plan Point) → List (Plan Point)
  at_former n f [] = []
  at_former zero f (p ∷ ps) = f p ∷ ps
  at_former (suc n) f (p ∷ ps) = p ∷ at_former n f ps

  -- The callback of `getCityByGeoresult` with a city, for the plan object that came as many plans
  -- before the one under review as the number says.
  unfoldable pub on_city : ℕ → End → ℕ → Review Point → Review Point
  on_city zero x c r = record r { plan = set_city x c r.plan }
  on_city (suc n) x c r = record r { former = at_former n (set_city x c) r.former }

  abbrev pub load : Review Point → Review Point
  load r = record r { vres = []; success = false; error = false; loading = true }

  -- `delPlan`, to its request; there is a plan object from the start.
  unfoldable pub del_plan : Review Point → Review Point
  del_plan r = send (del r.plan) (load r)

  -- The plan as `savePlan` completes it from the fields.
  unfoldable pub complete : Point → Point → Review Point → Plan Point
  complete a b r = record r.plan {
    sdate = r.sdate;
    stime = r.stime;
    placed = some (a, b);
    phone = if is_set r.phone then r.phone else r.plan.phone;
    contact = if is_set r.contact then r.contact else r.plan.contact;
  }

  abbrev pub save_at : Option Point → Option Point → Review Point → Review Point
  save_at none o r = r
  save_at (some a) none r = r
  save_at (some a) (some b) r =
      let p = complete a b r in send (mod_plan p) (load (record r { plan = p }))

  -- `savePlan`, to its request.
  unfoldable pub save_plan : Review Point → Review Point
  unfolding complete
  save_plan r = save_at r.plan.sll r.plan.ell r

  -- The callback of both posts, with `none` for success and the text of an error.
  unfoldable pub on_posted : Option Text → Review Point → Review Point
  unfolding get_plan is_positive
  on_posted none r =
      let u : Review Point = record r { loading = false; success = true } in
      if is_positive u.ntt then get_plan u else u
  on_posted (some e) r = record r { loading = false; error = true; vres = r.vres ++ e ∷ [] }
