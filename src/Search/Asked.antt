-- ===== src/Search/Asked.antt =====
-- What the car pool search asks for.
use cmoon.Base.{
  subst, sym, ◌≡◌, refl, ◌+◌, ◌-◌, ◌==◌, ℕ, Bool, true, false, ◌&&◌, List, [], ◌∷◌, Option, none,
  some, All, Text, Exit, finished, uri_error, type_error, ◌>>=◌, get_elem?, length, if◌then◌else◌,
}
use cmoon.Forms.{settle}
use cmoon.Robot.Order.{All-append}
use cmoon.Search.{
  start, finish, Plan, Search, Request, match_request, leave_request, matched, failed, box_of,
  rend_at, rend_match, rend_in, rend_plan, match_plan, match_at, hide, on_match, complete,
}
use cmoon.Search.Cards.{Found}
use cmoon.Search.Run.{
  Event, press_match, press_prev, press_next, fill, answered, dragged, confirmed, point_came,
  city_came, press_leave, leave_answered, step, run,
}
use cmoon.Search.Kept.{set_point-Kept, up_plan-Kept}
use cmoon.Search.Making.{
  leave_plan, on_leave, leave_with, set_point, up_plan, on_point, on_city, mark_draged,
}

module _ {Point : Type 0} (earth_dis : Point → Point → ℕ) where
  -- A plan that is searched for has both ends, and its box and its length are those of its ends.
  pub record IsAsked (p : Plan Point) : Type 0 where
    pub from_point : Point
    pub to_point : Point
    pub has_from : p.sll ≡ some from_point
    pub has_to : p.ell ≡ some to_point
    pub has_box : p.placed ≡ some (from_point, to_point)
    pub has_km : p.km ≡ some (earth_dis from_point to_point)

  abbrev pub IsSound : Request Point → Type 0
  IsSound (match_request p) = IsAsked p
  IsSound (leave_request p) = Unit

module _ {Point : Type 0} (earth_dis : Point → Point → ℕ) (someone thanks : Text) where
  abbrev Asks : Search Point → Type 0
  Asks s = All (IsSound earth_dis) s.requests

  match_at-Asks :
      (o p : Option Point) (s : Search Point)
      → s.plan.sll ≡ o
      → s.plan.ell ≡ p
      → Asks s
      → Asks (match_at earth_dis o p (hide earth_dis s))
  unfolding complete
  match_at-Asks none p s e f h = h
  match_at-Asks (some a) none s e f h = h
  match_at-Asks (some a) (some b) s e f h =
      let asked : IsAsked earth_dis (complete earth_dis a b (hide earth_dis s)) = record {
        from_point = a;
        to_point = b;
        has_from = e;
        has_to = f;
        has_box = refl;
        has_km = refl;
      } in
      All-append (IsSound earth_dis) s.requests
        (match_request (complete earth_dis a b (hide earth_dis s))) h asked

  rend_at-requests :
      (o : Option ((Option Text × Option Text) × (Option Text × Option Text))) (f : Found) (n : ℕ)
      (s : Search Point)
      → (rend_at earth_dis o f n s).0.requests ≡ s.requests
  unfolding rend_at rend_match
  rend_at-requests none f n s = refl
  rend_at-requests (some geo) f n s = refl

  rend_in-requests :
      (o : Option Found) (n : ℕ) (s : Search Point)
      → (rend_in earth_dis o n s).0.requests ≡ s.requests
  unfolding rend_in
  rend_in-requests none n s = refl
  rend_in-requests (some f) n s = rend_at-requests (box_of f) f n s

  rend_plan-requests :
      (n : ℕ) (s : Search Point) → (rend_plan earth_dis n s).0.requests ≡ s.requests
  unfolding rend_plan
  rend_plan-requests n s = rend_in-requests (get_elem? s.mplans n) n s

  stays : (s t : Search Point) → t.requests ≡ s.requests → Asks s → Asks t
  stays s t e h = subst (All (IsSound earth_dis)) (sym e) h

  turned :
      (b : Bool) (n : ℕ) (s : Search Point)
      → Asks s
      → Asks (if b then rend_plan earth_dis n s else (s, finished)).0
  turned true n s h = stays s (rend_plan earth_dis n s).0 (rend_plan-requests n s) h
  turned false n s h = h

  step-Asks :
      (e : Event Point) (s : Search Point) → Asks s → Asks (step earth_dis someone thanks e s).0
  unfolding step match_plan on_match mark_draged on_point on_city leave_plan on_leave
  step-Asks press_match s h = match_at-Asks s.plan.sll s.plan.ell s refl refl h
  step-Asks press_prev s h = turned (s.nav_shown && s.prev_shown) (s.pcur - 1) s h
  step-Asks press_next s h = turned (s.nav_shown && s.next_shown) (s.pcur + 1) s h
  step-Asks (fill i) s h = h
  step-Asks (answered (matched ntt plans)) s h =
      let n = if ntt == 0 then length plans else ntt in
      let u : Search Point = record s {
        at_submit = settle "vres" none s.at_submit;
        pnum = n;
        mplans = plans;
        num_nav = (0, n);
      } in
      stays s (rend_plan earth_dis 0 u).0 (rend_plan-requests 0 u) h
  step-Asks (answered (failed errmsg errcode)) s h = h
  step-Asks (dragged x none) s h = h
  step-Asks (dragged start (some (t, d))) s h =
      stays s (mark_draged earth_dis start t d s)
        (up_plan-Kept earth_dis start d (record s { saddr = t })).1 h
  step-Asks (dragged finish (some (t, d))) s h =
      stays s (mark_draged earth_dis finish t d s)
        (up_plan-Kept earth_dis finish d (record s { eaddr = t })).1 h
  step-Asks (confirmed x d) s h =
      stays s (up_plan earth_dis x d s) (up_plan-Kept earth_dis x d s).1 h
  step-Asks (point_came x none) s h = h
  step-Asks (point_came x (some a)) s h =
      stays s (set_point earth_dis x a s) (set_point-Kept earth_dis x a s).1 h
  step-Asks (city_came start c) s h = h
  step-Asks (city_came finish c) s h = h
  step-Asks (press_leave true) s h =
      All-append (IsSound earth_dis) s.requests (leave_request (leave_with earth_dis someone s)) h
        tt
  step-Asks (press_leave false) s h = h
  step-Asks (leave_answered none) s h = h
  step-Asks (leave_answered (some e)) s h = h

  next_step :
      (r : Search Point × Exit) (es : List (Event Point))
      → Asks r.0
      → ((s : Search Point) → Asks s → Asks (run earth_dis someone thanks es s).0)
      → Asks (r >>= run earth_dis someone thanks es).0
  next_step (s, finished) es h k = k s h
  next_step (s, uri_error) es h k = h
  next_step (s, type_error) es h k = h

  -- In every session, whatever happens and in any order, up to a handler that throws: from a page whose
  -- searches were for plans with both ends and the box and the length of these, so are all searches.
  pub run-Asks :
      (es : List (Event Point)) (s : Search Point)
      → All (IsSound earth_dis) s.requests
      → All (IsSound earth_dis) (run earth_dis someone thanks es s).0.requests
  unfolding run
  run-Asks [] s h = h
  run-Asks (e ∷ es) s h =
      next_step (step earth_dis someone thanks e s) es (step-Asks e s h) (λ t k. run-Asks es t k)
