-- ===== src/Robot/Order.antt =====
-- The order in which the two ends of a plan are found.
use cmoon.Base.{subst, sym, ℕ, ◌≡◌, refl, List, [], ◌∷◌, ◌++◌, none, some, String, All}
use cmoon.Robot.{
  Plan, Waits, point, place, city, nothing, End, start, finish, Answer, got_point, got_place,
  got_city, Task, parse_plan_err, found, answered, answer, answers,
}

-- A post that marks a plan as one with errors.
abbrev pub IsMark : {Point : Type 0} → Plan Point → Type 0
IsMark p = p.statu ≡ 11

pub All-append {ℓ κ} :
    {A : Type ℓ} (P : A → Type κ) (xs : List A) (y : A) → All P xs → P y → All P (xs ++ y ∷ [])
All-append P [] y h k = (k, tt)
All-append P (x ∷ xs) y (a, h) k = (a, All-append P xs y h k)

module _ {Point : Type 0} (earth_dis : Point → Point → ℕ) where
  -- The finish is found, and all posts are marks.
  record IsMissed (t : Task Point) : Type 0 where
    over : t.at_finish ≡ nothing
    marks : All IsMark t.posts

  marked : (t : Task Point) → IsMissed t → IsMissed (parse_plan_err earth_dis t)
  unfolding parse_plan_err
  marked t h = record {
    over = h.over;
    marks = All-append IsMark t.posts (record t.plan { statu = 11 }) h.marks refl;
  }

  answered-IsMissed :
      (w : Waits) (a : Answer Point) (t : Task Point)
      → IsMissed t
      → IsMissed (answered earth_dis start w a t).0
  unfolding answered found
  answered-IsMissed point (got_point none) t h =
      marked (record t { at_start = nothing }) (record { over = h.over; marks = h.marks })
  answered-IsMissed point (got_point (some p)) t h = record { over = h.over; marks = h.marks }
  answered-IsMissed point (got_place o) t h = h
  answered-IsMissed point (got_city o) t h = h
  answered-IsMissed place (got_place (some (d, (c, p)))) t h = record {
    over = h.over;
    marks = h.marks;
  }
  answered-IsMissed place (got_place none) t h = record { over = h.over; marks = h.marks }
  answered-IsMissed place (got_point o) t h = h
  answered-IsMissed place (got_city o) t h = h
  answered-IsMissed (city n ns) (got_city (some c)) t h = record { over = h.over; marks = h.marks }
  answered-IsMissed (city n (m ∷ ms)) (got_city none) t h = record {
    over = h.over;
    marks = h.marks;
  }
  answered-IsMissed (city n []) (got_city none) t h =
      marked (record t { at_start = nothing }) (record { over = h.over; marks = h.marks })
  answered-IsMissed (city n ns) (got_point o) t h = h
  answered-IsMissed (city n ns) (got_place o) t h = h
  answered-IsMissed nothing a t h = h

  answer-IsMissed :
      (x : End) (a : Answer Point) (t : Task Point)
      → IsMissed t
      → IsMissed (answer earth_dis x a t).0
  unfolding answer answered
  answer-IsMissed start a t h = answered-IsMissed t.at_start a t h
  answer-IsMissed finish a t h =
      subst (λ w. IsMissed (answered earth_dis finish w a t).0) (sym h.over) h

  answers-IsMissed :
      (xs : List (End × Answer Point)) (t : Task Point)
      → IsMissed t
      → IsMissed (answers earth_dis xs t)
  unfolding answers
  answers-IsMissed [] t h = h
  answers-IsMissed ((x, a) ∷ xs) t h =
      answers-IsMissed xs (answer earth_dis x a t).0 (answer-IsMissed x a t h)

  missed :
      (n : String) (ns : List String) (d : ℕ) (t : Task Point)
      → t.plan.scityid ≡ 0
      → t.at_finish ≡ city n ns
      → All IsMark t.posts
      → IsMissed (answer earth_dis finish (got_city (some d)) t).0
  unfolding answer answered found
  missed n ns d t unknown waiting h =
      rw (waiting, answered, unknown) (record { over = refl; marks = h })

  -- Where the city of the finish comes while that of the start is not known, and all posts so far
  -- are marks of errors: whatever comes later, all posts are marks, so that the plan is never saved.
  pub finish_first :
      (n : String) (ns : List String) (d : ℕ) (xs : List (End × Answer Point)) (t : Task Point)
      → t.plan.scityid ≡ 0
      → t.at_finish ≡ city n ns
      → All IsMark t.posts
      → All IsMark (answers earth_dis ((finish, got_city (some d)) ∷ xs) t).posts
  unfolding answers
  finish_first n ns d xs t unknown waiting h =
      (answers-IsMissed xs (answer earth_dis finish (got_city (some d)) t).0
        (missed n ns d t unknown waiting h)).marks
