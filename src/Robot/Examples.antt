-- ===== src/Robot/Examples.antt =====
-- The robot on a concrete plan, where points are numbers and all distances five kilometres.
use cmoon.Base.{ℕ, true, false, ◌≡◌, refl, [], ◌∷◌, none, some, All, finished, type_error}
use cmoon.Robot.{
  answered, waits_at, got_place, Plan, Task, start, finish, got_point, got_city, city, answer,
  answers, parse_plan,
}
use cmoon.Robot.Order.{IsMark, finish_first}
use cmoon.Robot.Google.{
  geocoded, named, google_answer, google_answers, google_posts-IsGood, has_bounds,
}
use cmoon.Robot.Posts.{exit_of, IsGood, posts-IsGood}
use cmoon.Robot.Queue.{Queue, came, run, batch_taken, ticks}

abbrev five : ℕ → ℕ → ℕ
five a b = 500

abbrev trip : Plan ℕ
trip = record {
  id = 7;
  saddr = "长沙";
  eaddr = "株洲";
  sll = none;
  ell = none;
  scityid = 0;
  ecityid = 0;
  placed = none;
  km = none;
  repeat = 0;
  statu = 0;
}

-- Both ends are located, and their cities are asked for.
abbrev looking : Task ℕ
looking = record {
  plan = record trip { sll = some 1; ell = some 2 };
  at_start = city "开福区" ("长沙市" ∷ []);
  at_finish = city "天元区" ("株洲市" ∷ []);
  posts = [];
}

finish_first_example :
    All IsMark
      (answers five ((finish, got_city (some 31)) ∷ (start, got_city (some 30)) ∷ []) looking).posts
finish_first_example =
    finish_first five "天元区" ("株洲市" ∷ []) 31 ((start, got_city (some 30)) ∷ []) looking refl refl tt

-- Nothing was posted there.
never_saved :
    (answers five ((finish, got_city (some 31)) ∷ (start, got_city (some 30)) ∷ []) looking).posts
    ≡ []
unfolding answers answer
never_saved = refl

posts-IsGood_example :
    ((answer five start
        (got_place none)
        (answers five ((start, got_point (some 1)) ∷ []) (parse_plan five trip))).1
      ≡ exit_of {Point = ℕ}
          (waits_at five start
            (answers five ((start, got_point (some 1)) ∷ []) (parse_plan five trip)))
          (got_place none))
    × All
        (IsGood five)
        (answers five ((start, got_point (some 1)) ∷ []) (parse_plan five trip)).posts
posts-IsGood_example =
    posts-IsGood five trip ((start, got_point (some 1)) ∷ []) start (got_place none) refl

-- No result throws there.
no_result :
    (answer five start
      (got_place none)
      (answers five ((start, got_point (some 1)) ∷ []) (parse_plan five trip))).1
    ≡ type_error
unfolding answer answers parse_plan answered
no_result = refl

google_posts-IsGood_example :
    ((google_answer five finish (named (some 31)) (
        google_answers five
          ((start, geocoded (some ("长沙", (1, [])))) ∷ [])
          (parse_plan five trip))).1
      ≡ finished)
    × All
        (IsGood five)
        (google_answers five
          ((start, geocoded (some ("长沙", (1, [])))) ∷ [])
          (parse_plan five trip)).posts
google_posts-IsGood_example =
    google_posts-IsGood five trip ((start, geocoded (some ("长沙", (1, [])))) ∷ []) finish
      (named (some 31)) refl

-- The second plan of one place is looked up without bounds.
bounds_once :
    (has_bounds "" "(1,2)" ≡ (true, "(1,2)")) × (has_bounds "(1,2)" "(1,2)" ≡ (false, "(1,2)"))
unfolding has_bounds
bounds_once = (refl, refl)

abbrev asking : Queue ℕ
asking = record {
  plans = [];
  cur_plan = 0;
  taken = [];
  requests = 1;
  parse_timers = 0;
  sleep_timers = 0;
}

batch_taken_example :
    let r = run (came (some (1 ∷ 2 ∷ [])) ∷ ticks 2) asking in
    (r.taken ≡ 1 ∷ 2 ∷ []) × (r.sleep_timers ≡ 1) × (r.parse_timers ≡ 0) × (r.requests ≡ 0)
batch_taken_example = batch_taken (1 ∷ 2 ∷ []) asking refl refl refl
