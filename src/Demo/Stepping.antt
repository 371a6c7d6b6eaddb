-- ===== src/Demo/Stepping.antt =====
-- What the arrows make of a place.
use cmoon.Base.{
  ℕ, ◌+◌, ◌≡◌, refl, ap, ◌∙◌, sym, subst, Bool, true, false, not, ◌&&◌, List, [], ◌∷◌, Option, none,
  some, String, Text, lookup, lookup-put, str_eq, str_eq_self, eq_iff, if◌then◌else◌, arith,
  Bool-cases, inl, inr,
}
use cmoon.Paging.Numerals.{Parsed}
use cmoon.Demo.{
  Demo, Event, Answer, left, answered, loaded, chosen, typed, up, down, step, run, next, previous,
  stepped, step_from, change_pos, put_field, change_pos_vup, change_pos_vdown, app_check, on_exist,
  change_plugin,
}
use cmoon.Demo.Place.{place, stepped-place, next-difference, previous-difference}

-- The presses of one key at one place.
abbrev pub ups : String → List Event → ℕ
ups k [] = 0
ups k (left b t ∷ es) = ups k es
ups k (answered t a ∷ es) = ups k es
ups k (loaded ∷ es) = ups k es
ups k (chosen v ∷ es) = ups k es
ups k (typed j v ∷ es) = ups k es
ups k (up j ∷ es) = if str_eq j k then ups k es + 1 else ups k es
ups k (down j ∷ es) = ups k es

abbrev pub downs : String → List Event → ℕ
downs k [] = 0
downs k (left b t ∷ es) = downs k es
downs k (answered t a ∷ es) = downs k es
downs k (loaded ∷ es) = downs k es
downs k (chosen v ∷ es) = downs k es
downs k (typed j v ∷ es) = downs k es
downs k (up j ∷ es) = downs k es
downs k (down j ∷ es) = if str_eq j k then downs k es + 1 else downs k es

abbrev pub is_untyped : String → List Event → Bool
is_untyped k [] = true
is_untyped k (left b t ∷ es) = is_untyped k es
is_untyped k (answered t a ∷ es) = is_untyped k es
is_untyped k (loaded ∷ es) = is_untyped k es
is_untyped k (chosen v ∷ es) = is_untyped k es
is_untyped k (typed j v ∷ es) = not (str_eq j k) && is_untyped k es
is_untyped k (up j ∷ es) = is_untyped k es
is_untyped k (down j ∷ es) = is_untyped k es

-- What stands in the field of a place, and in the code that is shown.
pub record HasPlace (k : String) (t : Text) (d : Demo) : Type 0 where
  pub in_field : lookup k d.fields ≡ some t
  pub in_code : lookup k d.codes ≡ some t

put-HasPlace :
    (k : String) (t v : Text) (d : Demo) → HasPlace k v (change_pos k v (put_field k v d))
unfolding change_pos put_field
put-HasPlace k t v d = record {
  in_field = ground (arith, lookup-put k k v d.fields, str_eq_self k);
  in_code = ground (arith, lookup-put k k v d.codes, str_eq_self k);
}

put-other :
    (j k : String) (t v : Text) (d : Demo)
    → str_eq j k ≡ false
    → HasPlace k t d
    → HasPlace k t (change_pos j v (put_field j v d))
unfolding change_pos put_field
put-other j k t v d e h = record {
  in_field = ground (arith, lookup-put j k v d.fields, e, h.in_field);
  in_code = ground (arith, lookup-put j k v d.codes, e, h.in_code);
}

step_from-HasPlace :
    (f : Parsed → Parsed) (k : String) (t : Text) (d : Demo)
    → HasPlace k t d
    → HasPlace k (stepped f t) (step_from f k (lookup k d.fields) d)
unfolding step_from
step_from-HasPlace f k t d h =
    subst (λ o. HasPlace k (stepped f t) (step_from f k o d)) (sym h.in_field)
      (put-HasPlace k t (stepped f t) d)

step_from-other :
    (f : Parsed → Parsed) (j k : String) (o : Option Text) (t : Text) (d : Demo)
    → str_eq j k ≡ false
    → HasPlace k t d
    → HasPlace k t (step_from f j o d)
unfolding step_from
step_from-other f j k none t d e h = h
step_from-other f j k (some v) t d e h = put-other j k t (stepped f v) d e h

HasPlace-same :
    (k : String) (t : Text) (d e : Demo)
    → e.fields ≡ d.fields
    → e.codes ≡ d.codes
    → HasPlace k t d
    → HasPlace k t e
HasPlace-same k t d e f c h = record {
  in_field = ap (lookup k) f ∙ h.in_field;
  in_code = ap (lookup k) c ∙ h.in_code;
}

app_check-same :
    (b : Bool) (t : Text) (d : Demo)
    → ((app_check b t d).fields ≡ d.fields) × ((app_check b t d).codes ≡ d.codes)
unfolding app_check
app_check-same b t d = ground arith

on_exist-same :
    (t : Text) (a : Answer) (d : Demo)
    → ((on_exist t a d).fields ≡ d.fields) × ((on_exist t a d).codes ≡ d.codes)
unfolding on_exist
on_exist-same t a d = ground arith

HasPlace-moved :
    (k : String) (a b c e : ℕ) (u : Bool) (d : Demo)
    → a ≡ c
    → b ≡ e
    → HasPlace k (place a b u) d
    → HasPlace k (place c e u) d
HasPlace-moved k a b c e u d p q h =
    subst (λ n. HasPlace k (place c n u) d) q (subst (λ n. HasPlace k (place n b u) d) p h)

up-HasPlace :
    (k : String) (a b : ℕ) (u : Bool) (d : Demo)
    → HasPlace k (place a b u) d
    → HasPlace k (place (a + 1) b u) (change_pos_vup k d)
unfolding change_pos_vup
up-HasPlace k a b u d h =
    subst (λ t. HasPlace k t (change_pos_vup k d))
      (stepped-place next a b (a + 1) b u (next-difference a b))
      (step_from-HasPlace next k (place a b u) d h)

down-HasPlace :
    (k : String) (a b : ℕ) (u : Bool) (d : Demo)
    → HasPlace k (place a b u) d
    → HasPlace k (place a (b + 1) u) (change_pos_vdown k d)
unfolding change_pos_vdown
down-HasPlace k a b u d h =
    subst (λ t. HasPlace k t (change_pos_vdown k d))
      (stepped-place previous a b a (b + 1) u (previous-difference a b))
      (step_from-HasPlace previous k (place a b u) d h)

-- If the field of a place and the code that is shown hold a whole number, with a percent sign or
-- without one, and nothing is typed into this field: after any events in any order both hold the
-- number with one more for each press of the arrow up in the field, and one less for each press of
-- the arrow down, and the percent sign exactly if it was there.
pub run-HasPlace :
    (k : String) (a b : ℕ) (u : Bool) (es : List Event) (d : Demo)
    → is_untyped k es ≡ true
    → HasPlace k (place a b u) d
    → HasPlace k (place (a + ups k es) (b + downs k es) u) (run es d)
unfolding run step change_plugin
run-HasPlace k a b u [] d e h =
    HasPlace-moved k a b (a + 0) (b + 0) u d (omega arith) (omega arith) h
run-HasPlace k a b u (left c t ∷ es) d e h =
    let same = app_check-same c t d in
    run-HasPlace k a b u es (app_check c t d) e (HasPlace-same k (place a b u) d _ same.0 same.1 h)
run-HasPlace k a b u (answered t c ∷ es) d e h =
    let same = on_exist-same t c d in
    run-HasPlace k a b u es (on_exist t c d) e (HasPlace-same k (place a b u) d _ same.0 same.1 h)
run-HasPlace k a b u (loaded ∷ es) d e h =
    run-HasPlace k a b u es (record d { has_chat = true }) e
      (HasPlace-same k (place a b u) d _ refl refl h)
run-HasPlace k a b u (chosen v ∷ es) d e h =
    run-HasPlace k a b u es (change_plugin v d) e (HasPlace-same k (place a b u) d _ refl refl h)
run-HasPlace k a b u (typed j v ∷ es) d e h =
    run-HasPlace k a b u es (change_pos j v (put_field j v d)) (ground (arith, e))
      (put-other j k (place a b u) v d (ground (arith, e)) h)
run-HasPlace k a b u (up j ∷ es) d e h = elim (Bool-cases (str_eq j k)) [
  | inl s ↦ rw s (
      HasPlace-moved k (a + 1 + ups k es) (b + downs k es) (a + (ups k es + 1)) (b + downs k es) u
        (run es (change_pos_vup j d)) (omega arith) (omega arith)
        (run-HasPlace k (a + 1) b u es (change_pos_vup j d) e (
          subst (λ i. HasPlace k (place (a + 1) b u) (change_pos_vup i d)) (sym ((eq_iff j k).0 s))
            (up-HasPlace k a b u d h))))
  | inr s ↦ rw s (
      run-HasPlace k a b u es (change_pos_vup j d) e
        (step_from-other next j k (lookup j d.fields) (place a b u) d s h))
]
run-HasPlace k a b u (down j ∷ es) d e h = elim (Bool-cases (str_eq j k)) [
  | inl s ↦ rw s (
      HasPlace-moved k (a + ups k es) (b + 1 + downs k es) (a + ups k es) (b + (downs k es + 1)) u
        (run es (change_pos_vdown j d)) (omega arith) (omega arith)
        (run-HasPlace k a (b + 1) u es (change_pos_vdown j d) e (
          subst (λ i. HasPlace k (place a (b + 1) u) (change_pos_vdown i d))
            (sym ((eq_iff j k).0 s)) (down-HasPlace k a b u d h))))
  | inr s ↦ rw s (
      run-HasPlace k a b u es (change_pos_vdown j d) e
        (step_from-other previous j k (lookup j d.fields) (place a b u) d s h))
]
