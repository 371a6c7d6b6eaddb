-- ===== src/Search/Making.antt =====
-- The plan of the search is made up from its two ends, and left for others to find.
use cmoon.Base.{
  ℕ, ◌+◌, Bool, not, List, [], ◌∷◌, ◌++◌, Option, none, some, ◌==◌, if◌then◌else◌, Text,
}
use cmoon.Forms.{load, settle, note}
use cmoon.Search.{End, start, finish, Plan, Poi, Search, leave_request}

-- `_strFromPoi`
unfoldable pub str_from_poi : {Point : Type 0} → Poi Point → Text
str_from_poi d = d.province ++ d.city ++ d.district ++ d.street ++ d.street_number ++ d.business

-- `days.join(',')`
abbrev pub join : List Text → Text
join [] = []
join (d ∷ []) = d
join (d ∷ e ∷ ds) = d ++ b',' ∷ join (e ∷ ds)

abbrev pub total : List ℕ → ℕ
total [] = 0
total (n ∷ ns) = n + total ns

abbrev pub or_else : Text → Text → Text
or_else [] t = t
or_else (c ∷ s) t = c ∷ s

-- `earth_dis` is `bmoon.utl.earthDis`, the text of a number with two digits behind the point.
module _ {Point : Type 0} (earth_dis : Point → Point → ℕ) where
  -- The plan as `leavePlan` completes it from the fields; `someone` is its nick for one without.
  unfoldable pub leave_with : Text → Search Point → Plan Point
  leave_with someone s = record s.plan {
    repeat = s.inputs.repeat;
    sdate = if s.inputs.repeat == 2 then join s.inputs.wdays else s.plan.date;
    dad = if s.inputs.dad == 0 then 1 else 0;
    stime = s.plan.time;
    phone = s.inputs.phone;
    contact = s.inputs.contact;
    nick = or_else s.inputs.nick someone;
    attach = s.inputs.attach;
    subscribe = total s.inputs.subscribes;
  }

  -- `leavePlan`, to its request; `is_right` is the check of the fields.
  unfoldable pub leave_plan : Text → Bool → Search Point → Search Point
  unfolding leave_with load
  leave_plan someone is_right s =
      if not is_right
      then s
      else (let p = leave_with someone s in
          record s {
            plan = p;
            at_leave = load "vres" s.at_leave;
            requests = s.requests ++ leave_request p ∷ [];
          })

  -- Its answer; `thanks` is the note of one that is right.
  unfoldable pub on_leave : Text → Option Text → Search Point → Search Point
  unfolding settle
  on_leave thanks none s = record s { at_leave = note thanks (settle "vres" none s.at_leave) }
  on_leave thanks (some e) s = record s { at_leave = settle "vres" (some e) s.at_leave }

  abbrev pub draw : Option Point → Option Point → Search Point → Search Point
  draw none o s = s
  draw (some a) none s = s
  draw (some a) (some b) s = record s { km_shown = some (earth_dis a b); line = some (a, b) }

  -- `rendDirect`
  unfoldable pub rend_direct : Search Point → Search Point
  rend_direct s = draw s.plan.sll s.plan.ell s

  -- What `upPlan` does with a point.
  unfoldable pub set_point : End → Point → Search Point → Search Point
  unfolding rend_direct
  set_point start a s = record s { plan = record s.plan { sll = some a } }
  set_point finish b s = rend_direct (record s { plan = record s.plan { ell = some b } })

  abbrev pub set_addr : End → Text → Search Point → Search Point
  set_addr start t s = record s { plan = record s.plan { saddr = t } }
  set_addr finish t s = record s { plan = record s.plan { eaddr = t } }

  -- `upPlan`, which begins the lookups of a point that is not known and of the city.
  unfoldable pub up_plan : End → Poi Point → Search Point → Search Point
  unfolding str_from_poi set_point
  up_plan x d s =
      let u = set_addr x (str_from_poi d) s in elim d.point [ none ↦ u | some a ↦ set_point x a u ]

  -- The callback of `getPoint`.
  unfoldable pub on_point : End → Option Point → Search Point → Search Point
  unfolding set_point
  on_point x none s = s
  on_point x (some a) s = set_point x a s

  -- The callback of `getCityByPoi` with a city.
  unfoldable pub on_city : End → ℕ → Search Point → Search Point
  on_city start c s = record s { plan = record s.plan { scityid = c } }
  on_city finish c s = record s { plan = record s.plan { ecityid = c } }

  -- The callback of `getLocation` in `markDraged`, with the text for the field and the parts of the
  -- address, to which the point was added.
  unfoldable pub mark_draged : End → Text → Poi Point → Search Point → Search Point
  unfolding up_plan
  mark_draged start t d s = up_plan start d (record s { saddr = t })
  mark_draged finish t d s = up_plan finish d (record s { eaddr = t })
