-- ===== src/Robot/Google.antt =====
-- The car pool robot over the other map service, dida/fly/js/admin/spd/robot-g.js, with
-- `getCityByGeoresult` of dida/fly/js/bmoon.dida.js. The service reads a request when it is made.
use cmoon.Base.{
  ℕ, suc, ◌≡◌, refl, String, Bool, true, false, not, ◌&&◌, List, [], ◌∷◌, Option, none, some, All,
  length, str_eq, if◌then◌else◌, Exit, finished, arith,
}
use cmoon.Member.{Component, geo_loop}
use cmoon.Robot.{
  Plan, Waits, point, city, nothing, place, End, start, finish, got_city, Task, parse_plan_err,
  set_point, wait, waits_at, answered, parse_plan,
}
use cmoon.Robot.Posts.{IsGood, IsSound, Runs, marked, answered-Ends}

-- What the geocoder finds: the address, the point and the components; and the answer for a name.
pub data GoogleAnswer (Point : Type 0) : Type 0 where
  geocoded : Option (String × (Point × List Component)) → GoogleAnswer Point
  named : Option ℕ → GoogleAnswer Point

abbrev pub short_names : List Component → List String
short_names [] = []
short_names (c ∷ cs) = c.short_name ∷ short_names cs

abbrev pub names_of : Option (List Component) → List String
names_of none = []
names_of (some cs) = short_names cs

-- The names that `getCityByGeoresult` asks for.
unfoldable pub city_names : List Component → List String
unfolding geo_loop
city_names arrs = names_of (geo_loop (suc (length arrs)) 0 arrs)

-- `pdata.bounds`: whether a request has the bounds of the plan's place, and `cur_geopos` behind it.
unfoldable pub has_bounds : String → String → Bool × String
has_bounds cur geopos =
    if not (str_eq geopos "") && not (str_eq geopos cur) then (true, geopos) else (false, cur)

module _ {Point : Type 0} (earth_dis : Point → Point → ℕ) where
  abbrev pub put_addr : End → String → Task Point → Task Point
  put_addr start s t = record t { plan = record t.plan { saddr = s } }
  put_addr finish s t = record t { plan = record t.plan { eaddr = s } }

  -- The first call of `get`.
  abbrev pub first_name : End → List String → Task Point → Task Point
  unfolding parse_plan_err
  first_name x [] t = parse_plan_err earth_dis (wait earth_dis x nothing t)
  first_name x (n ∷ ns) t = wait earth_dis x (city n ns) t

  -- The callback of the geocoder at each end.
  unfoldable pub on_geocoded :
      End → Option (String × (Point × List Component)) → Task Point → Task Point
  unfolding parse_plan_err first_name city_names
  on_geocoded x none t = parse_plan_err earth_dis (wait earth_dis x nothing t)
  on_geocoded x (some (s, (p, cs))) t =
      first_name x (city_names cs) (set_point earth_dis x p (put_addr x s t))

  abbrev pub google_answered : End → Waits → GoogleAnswer Point → Task Point → Task Point × Exit
  unfolding on_geocoded answered
  google_answered x point (geocoded o) t = (on_geocoded x o t, finished)
  google_answered x place (geocoded o) t = (t, finished)
  google_answered x (city n ns) (geocoded o) t = (t, finished)
  google_answered x nothing (geocoded o) t = (t, finished)
  google_answered x w (named o) t = answered earth_dis x w (got_city o) t

  unfoldable pub google_answer : End → GoogleAnswer Point → Task Point → Task Point × Exit
  unfolding google_answered
  google_answer x a t = google_answered x (waits_at earth_dis x t) a t

  unfoldable pub google_answers : List (End × GoogleAnswer Point) → Task Point → Task Point
  unfolding google_answer
  google_answers [] t = t
  google_answers ((x, a) ∷ xs) t = google_answers xs (google_answer x a t).0

  failed-IsSound :
      (x : End) (t : Task Point)
      → IsSound earth_dis t
      → IsSound earth_dis (parse_plan_err earth_dis (wait earth_dis x nothing t))
  failed-IsSound start t h =
      marked earth_dis (record t { at_start = nothing })
        (record {
          known = h.known;
          start_located = refl;
          finish_located = h.finish_located;
          good = h.good;
        })
  failed-IsSound finish t h =
      marked earth_dis (record t { at_finish = nothing })
        (record {
          known = h.known;
          start_located = h.start_located;
          finish_located = refl;
          good = h.good;
        })

  located-IsSound :
      (x : End) (s : String) (p : Point) (t : Task Point)
      → IsSound earth_dis t
      → IsSound earth_dis (set_point earth_dis x p (put_addr x s t))
  located-IsSound start s p t h = ground arith
  located-IsSound finish s p t h = ground arith

  first_name-IsSound :
      (x : End) (ns : List String) (s : String) (p : Point) (t : Task Point)
      → IsSound earth_dis t
      → IsSound earth_dis (first_name x ns (set_point earth_dis x p (put_addr x s t)))
  unfolding first_name
  first_name-IsSound x [] s p t h =
      failed-IsSound x (set_point earth_dis x p (put_addr x s t)) (located-IsSound x s p t h)
  first_name-IsSound start (n ∷ ns) s p t h = ground arith
  first_name-IsSound finish (n ∷ ns) s p t h = ground arith

  google_answered-Runs :
      (x : End) (w : Waits) (a : GoogleAnswer Point) (t : Task Point)
      → waits_at earth_dis x t ≡ w
      → IsSound earth_dis t
      → Runs earth_dis (google_answered x w a t)
  unfolding google_answered on_geocoded
  google_answered-Runs x point (geocoded none) t e h = (refl, failed-IsSound x t h)
  google_answered-Runs x point (geocoded (some (s, (p, cs)))) t e h =
      (refl, first_name-IsSound x (city_names cs) s p t h)
  google_answered-Runs x place (geocoded o) t e h = (refl, h)
  google_answered-Runs x (city n ns) (geocoded o) t e h = (refl, h)
  google_answered-Runs x nothing (geocoded o) t e h = (refl, h)
  google_answered-Runs x point (named o) t e h = answered-Ends earth_dis x point (got_city o) t e h
  google_answered-Runs x place (named o) t e h = answered-Ends earth_dis x place (got_city o) t e h
  google_answered-Runs x (city n ns) (named o) t e h =
      answered-Ends earth_dis x (city n ns) (got_city o) t e h
  google_answered-Runs x nothing (named o) t e h =
      answered-Ends earth_dis x nothing (got_city o) t e h

  google_answer-Runs :
      (x : End) (a : GoogleAnswer Point) (t : Task Point)
      → IsSound earth_dis t
      → Runs earth_dis (google_answer x a t)
  unfolding google_answer
  google_answer-Runs x a t h = google_answered-Runs x (waits_at earth_dis x t) a t refl h

  google_answers-IsSound :
      (xs : List (End × GoogleAnswer Point)) (t : Task Point)
      → IsSound earth_dis t
      → IsSound earth_dis (google_answers xs t)
  unfolding google_answers
  google_answers-IsSound [] t h = h
  google_answers-IsSound ((x, a) ∷ xs) t h =
      google_answers-IsSound xs (google_answer x a t).0 (google_answer-Runs x a t h).1

  -- With the other service too, from a plan whose start has no city yet, after any answers in any
  -- order: the next answer throws nothing, and every plan that was posted is marked as one with errors
  -- or has both cities, both points, and the box and the length of these points.
  pub google_posts-IsGood :
      (p : Plan Point) (xs : List (End × GoogleAnswer Point)) (x : End) (a : GoogleAnswer Point)
      → p.scityid ≡ 0
      → ((google_answer x a (google_answers xs (parse_plan earth_dis p))).1 ≡ finished)
        × All (IsGood earth_dis) (google_answers xs (parse_plan earth_dis p)).posts
  unfolding parse_plan
  google_posts-IsGood p xs x a h =
      let fresh : Task Point = record {
        plan = p;
        at_start = point;
        at_finish = point;
        posts = [];
      } in
      let sound : IsSound earth_dis (google_answers xs fresh) =
        google_answers-IsSound xs fresh (record {
          known = ground (arith, h);
          start_located = refl;
          finish_located = refl;
          good = tt;
        }) in
      ((google_answer-Runs x a (google_answers xs fresh) sound).0, sound.good)
