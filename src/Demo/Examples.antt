-- ===== src/Demo/Examples.antt =====
-- Steps of concrete places.
use cmoon.Base.{◌≡◌, refl, true, false, List, [], ◌∷◌, ◌+◌, lookup, units, decimal}
use cmoon.Paging.Numerals.{parse_int}
use cmoon.Demo.{Demo, Event, up, down, left, loaded, run, stepped, next, previous, number_text}
use cmoon.Demo.Place.{place}
use cmoon.Demo.Stepping.{HasPlace, ups, downs, run-HasPlace}

abbrev demo : Demo
demo = record {
  has_step1 = true;
  has_step2 = false;
  is_loading = false;
  is_error = false;
  vres = [];
  requests = [];
  code_aname = [];
  code_css = [];
  css = [];
  fields = ("top", place 5 0 true) ∷ ("left", place 0 1 false) ∷ [];
  codes = ("top", place 5 0 true) ∷ ("left", place 0 1 false) ∷ [];
  has_chat = false;
  updates = [];
  started = [];
}

abbrev presses : List Event
presses =
    up "left"
    ∷ down "top"
    ∷ left true (units "a.b")
    ∷ loaded
    ∷ up "left"
    ∷ up "top"
    ∷ down "top"
    ∷ []

demo-HasPlace : HasPlace "left" (place 0 1 false) demo
unfolding lookup
demo-HasPlace = record { in_field = refl; in_code = refl }

run-HasPlace_example :
    HasPlace "left"
      (place (0 + ups "left" presses) (1 + downs "left" presses) false)
      (run presses demo)
run-HasPlace_example = run-HasPlace "left" 0 1 false presses demo refl demo-HasPlace

-- Another unit is lost, and so is what comes after the point.
without_unit : stepped next (units "10px") ≡ units "11"
unfolding stepped number_text parse_int units decimal
without_unit = refl

below_nothing : stepped previous (units "0%") ≡ units "-1%"
unfolding stepped number_text parse_int units decimal
below_nothing = refl
