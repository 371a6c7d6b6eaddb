-- ===== src/Review/Examples.antt =====
-- The review of plans where a point is a number and so is a distance.
use cmoon.Base.{ℕ, ◌+◌, false, [], ◌∷◌, none, some, All}
use cmoon.Review.{Review, Plan, Place, start, pos}
use cmoon.Review.Posts.{
  IsFit, run-IsFit, run, press_next, press_save, type_phone, plan_came, dragged, post_answered,
  city_came,
}

abbrev blank : Plan ℕ
blank = record {
  id = 0;
  saddr = [];
  eaddr = [];
  sdate = [];
  stime = [];
  sll = none;
  ell = none;
  scityid = 0;
  ecityid = 0;
  placed = none;
  km = none;
  phone = [];
  contact = [];
}

abbrev plan_at : ℕ → ℕ → ℕ → Plan ℕ
plan_at n a b = record blank { id = n; sll = some a; ell = some b }

abbrev page : Review ℕ
page = record {
  plan = blank;
  former = [];
  ntt = pos 2;
  count = none;
  saddr = [];
  eaddr = [];
  sdate = [];
  stime = [];
  phone = [];
  contact = [];
  loading = false;
  success = false;
  error = false;
  vres = [];
  requests = [];
}

abbrev dug : Place ℕ
dug = record { location = 9; formatted_address = [] }

run-IsFit_example :
    All IsFit
      (run ◌+◌
        (press_next
          ∷ plan_came (some (plan_at 1 3 4))
          ∷ type_phone (b'7' ∷ [])
          ∷ dragged start dug
          ∷ city_came 0 start 5
          ∷ press_save
          ∷ post_answered none
          ∷ [])
        page).requests
run-IsFit_example =
    run-IsFit ◌+◌
      (press_next
        ∷ plan_came (some (plan_at 1 3 4))
        ∷ type_phone (b'7' ∷ [])
        ∷ dragged start dug
        ∷ city_came 0 start 5
        ∷ press_save
        ∷ post_answered none
        ∷ [])
      page tt
