-- ===== src/Review/Posts.antt =====
-- What the review of plans posts.
use cmoon.Base.{
  ap, ◌∙◌, ℕ, zero, suc, ◌≡◌, refl, inl, inr, Bool, true, false, List, [], ◌∷◌, Option, none, some,
  All, Text, Bool-cases, if◌then◌else◌,
}
use cmoon.Robot.Order.{All-append}
use cmoon.Review.{
  Review, Plan, Place, End, start, finish, Request, get, del, mod_plan, is_positive, send, get_plan,
  on_plan, up_plan, mark_draged, on_city, del_plan, save_plan, save_at, on_posted, complete, load,
}

-- What happens at the page: the buttons, the fields, and the answers, in any order.
pub data Event (Point : Type 0) : Type 0 where
  press_next press_del press_save : Event Point
  type_phone type_contact type_sdate type_stime : Text → Event Point
  plan_came : Option (Plan Point) → Event Point
  dragged changed : End → Place Point → Event Point
  city_came : ℕ → End → ℕ → Event Point
  post_answered : Option Text → Event Point

-- A plan that is saved has both ends, and its box is made of them.
pub record IsPlaced {Point : Type 0} (p : Plan Point) : Type 0 where
  pub from_point : Point
  pub to_point : Point
  pub has_from : p.sll ≡ some from_point
  pub has_to : p.ell ≡ some to_point
  pub has_box : p.placed ≡ some (from_point, to_point)

abbrev pub IsFit : {Point : Type 0} → Request Point → Type 0
IsFit (get n) = Unit
IsFit (del p) = Unit
IsFit (mod_plan p) = IsPlaced p

module _ {Point : Type 0} (earth_dis : Point → Point → ℕ) where
  unfoldable pub step : Event Point → Review Point → Review Point
  step press_next r = get_plan earth_dis r
  step press_del r = del_plan earth_dis r
  step press_save r = save_plan earth_dis r
  step (type_phone t) r = record r { phone = t }
  step (type_contact t) r = record r { contact = t }
  step (type_sdate t) r = record r { sdate = t }
  step (type_stime t) r = record r { stime = t }
  step (plan_came o) r = on_plan earth_dis o r
  step (dragged x d) r = mark_draged earth_dis x d r
  step (changed x d) r = up_plan earth_dis x d r
  step (city_came n x c) r = on_city earth_dis n x c r
  step (post_answered o) r = on_posted earth_dis o r

  unfoldable pub run : List (Event Point) → Review Point → Review Point
  run [] r = r
  run (e ∷ es) r = run es (step e r)

  abbrev IsSound : Review Point → Type 0
  IsSound r = All IsFit r.requests

  get_plan-IsSound : (r : Review Point) → IsSound r → IsSound (get_plan earth_dis r)
  unfolding get_plan
  get_plan-IsSound r h = elim (Bool-cases (is_positive r.ntt)) [
    | inl e ↦ rw (get_plan, e) (All-append IsFit r.requests (get r.plan.id) h tt)
    | inr e ↦ rw (get_plan, e) h
  ]

  pub save_plan-requests :
      (r : Review Point) (a b : Point)
      → r.plan.sll ≡ some a
      → r.plan.ell ≡ some b
      → save_plan earth_dis r ≡ (
          let p = complete earth_dis a b r in
          send earth_dis (mod_plan p) (load earth_dis (record r { plan = p })))
  unfolding save_plan
  save_plan-requests r a b e f =
      ap (λ o. save_at earth_dis o r.plan.ell r) e ∙ ap (λ o. save_at earth_dis (some a) o r) f

  save_at-IsSound :
      (o p : Option Point) (r : Review Point)
      → r.plan.sll ≡ o
      → r.plan.ell ≡ p
      → IsSound r
      → IsSound (save_at earth_dis o p r)
  unfolding complete
  save_at-IsSound none p r e f h = h
  save_at-IsSound (some a) none r e f h = h
  save_at-IsSound (some a) (some b) r e f h =
      let placed : IsPlaced (complete earth_dis a b r) = record {
        from_point = a;
        to_point = b;
        has_from = e;
        has_to = f;
        has_box = refl;
      } in
      All-append IsFit r.requests (mod_plan (complete earth_dis a b r)) h placed

  if-IsSound :
      (b : Bool) (u : Review Point) → IsSound u → IsSound (if b then get_plan earth_dis u else u)
  if-IsSound true u h = get_plan-IsSound u h
  if-IsSound false u h = h

  on_posted-IsSound :
      (o : Option Text) (r : Review Point) → IsSound r → IsSound (on_posted earth_dis o r)
  unfolding on_posted
  on_posted-IsSound (some e) r h = h
  on_posted-IsSound none r h =
      if-IsSound (is_positive r.ntt) (record r { loading = false; success = true }) h

  step-IsSound : (e : Event Point) (r : Review Point) → IsSound r → IsSound (step e r)
  unfolding step on_plan mark_draged up_plan on_city del_plan save_plan
  step-IsSound press_next r h = get_plan-IsSound r h
  step-IsSound press_del r h = All-append IsFit r.requests (del r.plan) h tt
  step-IsSound press_save r h = save_at-IsSound r.plan.sll r.plan.ell r refl refl h
  step-IsSound (type_phone t) r h = h
  step-IsSound (type_contact t) r h = h
  step-IsSound (type_sdate t) r h = h
  step-IsSound (type_stime t) r h = h
  step-IsSound (plan_came none) r h = h
  step-IsSound (plan_came (some p)) r h = h
  step-IsSound (dragged start d) r h = h
  step-IsSound (dragged finish d) r h = h
  step-IsSound (changed x d) r h = h
  step-IsSound (city_came zero x c) r h = h
  step-IsSound (city_came (suc n) x c) r h = h
  step-IsSound (post_answered o) r h = on_posted-IsSound o r h

  -- From a page whose saved plans have both ends and a box made of them, every plan that is saved has,
  -- whatever buttons are pressed, fields are filled and answers come, in any order.
  pub run-IsFit :
      (es : List (Event Point)) (r : Review Point)
      → All IsFit r.requests
      → All IsFit (run es r).requests
  unfolding run
  run-IsFit [] r h = h
  run-IsFit (e ∷ es) r h = run-IsFit es (step e r) (step-IsSound e r h)
