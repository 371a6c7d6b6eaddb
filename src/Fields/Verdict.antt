-- ===== src/Fields/Verdict.antt =====
-- The verdict of the check of a form.
use cmoon.Base.{
  ◌<◌, ◌⊎◌, ap, ◌∙◌, sym, ℕ, ◌≡◌, ◌↔◌, refl, Bool, true, false, List, [], ◌∷◌, ◌++◌, map, Option,
  none, some, ◌≤◌, ◌==◌, length, if◌then◌else◌, Text, All, arith, Bool-cases, inl, inr,
}
use cmoon.Fields.Matching.{Regex, test}
use cmoon.Fields.{
  Field, date_pattern, email_pattern, int_pattern, phone_pattern, name_pattern, url_pattern,
  ip_pattern, above, below, fails, is_wrong, report_err, accept, check_field, Outcome, before,
  inputval,
}

abbrev Meets : Bool → Regex → Text → Type 0
Meets wanted r s = wanted ≡ true → test r s ≡ true

abbrev AtMost : Option ℕ → ℕ → Type 0
AtMost none n = Unit
AtMost (some k) n = n ≤ k

abbrev AtLeast : Option ℕ → ℕ → Type 0
AtLeast none n = Unit
AtLeast (some k) n = k ≤ n

-- A value with something in it that has the length and the patterns that its field asks for.
pub record IsRight (f : Field) : Type 0 where
  pub not_long : AtMost f.vmax (length f.val)
  pub not_short : AtLeast f.vmin (length f.val)
  pub right_date : Meets f.vdate date_pattern f.val
  pub right_email : Meets f.vemail email_pattern f.val
  pub right_int : Meets f.vint int_pattern f.val
  pub right_phone : Meets f.vphone phone_pattern f.val
  pub right_name : Meets f.vname name_pattern f.val
  pub right_url : Meets f.vurl url_pattern f.val
  pub right_ip : Meets f.vip ip_pattern f.val

fails_iff : (wanted : Bool) (r : Regex) (s : Text) → (fails wanted r s ≡ false) ↔ Meets wanted r s
fails_iff true r s = ((λ e h. ground (arith, e)), (λ h. ground (arith, h refl)))
fails_iff false r s = ((λ e h. ground (arith, h)), (λ h. refl))

above_iff : (o : Option ℕ) (n : ℕ) → (above o n ≡ false) ↔ AtMost o n
above_iff none n = ((λ e. tt), (λ h. refl))
above_iff (some k) n = ((λ e. ground (arith, e)), (λ h. ground (arith, h)))

below_iff : (o : Option ℕ) (n : ℕ) → (below o n ≡ false) ↔ AtLeast o n
below_iff none n = ((λ e. tt), (λ h. refl))
below_iff (some k) n = ((λ e. ground (arith, e)), (λ h. ground (arith, h)))

-- An empty value is accepted unless one is required; any other is if it is right.
abbrev pub IsOk : Field → Type 0
IsOk f = ((length f.val ≡ 0) × (f.vrequire ≡ false)) ⊎ ((0 < length f.val) × IsRight f)

-- A chain of checks comes to its end if none of them fails.
if_false : (a b : Bool) → (if a then true else b) ≡ false → (a ≡ false) × (b ≡ false)
if_false true b e = absurd (ground (arith, e))
if_false false b e = (refl, e)

of_false : (a b : Bool) → a ≡ false → b ≡ false → (if a then true else b) ≡ false
of_false true b e f = e
of_false false b e f = f

IsRight-of_checks : (f : Field) → is_wrong f ≡ false → IsRight f
unfolding is_wrong
IsRight-of_checks f e =
    let c0 = if_false (above f.vmax (length f.val)) _ e in
    let c1 = if_false (below f.vmin (length f.val)) _ c0.1 in
    let c2 = if_false (fails f.vdate date_pattern f.val) _ c1.1 in
    let c3 = if_false (fails f.vemail email_pattern f.val) _ c2.1 in
    let c4 = if_false (fails f.vint int_pattern f.val) _ c3.1 in
    let c5 = if_false (fails f.vphone phone_pattern f.val) _ c4.1 in
    let c6 = if_false (fails f.vname name_pattern f.val) _ c5.1 in
    let c7 = if_false (fails f.vurl url_pattern f.val) _ c6.1 in
    record {
      not_long = (above_iff f.vmax (length f.val)).0 c0.0;
      not_short = (below_iff f.vmin (length f.val)).0 c1.0;
      right_date = (fails_iff f.vdate date_pattern f.val).0 c2.0;
      right_email = (fails_iff f.vemail email_pattern f.val).0 c3.0;
      right_int = (fails_iff f.vint int_pattern f.val).0 c4.0;
      right_phone = (fails_iff f.vphone phone_pattern f.val).0 c5.0;
      right_name = (fails_iff f.vname name_pattern f.val).0 c6.0;
      right_url = (fails_iff f.vurl url_pattern f.val).0 c7.0;
      right_ip = (fails_iff f.vip ip_pattern f.val).0 c7.1;
    }

is_wrong-IsRight : (f : Field) → IsRight f → is_wrong f ≡ false
unfolding is_wrong
is_wrong-IsRight f h =
    of_false (above f.vmax (length f.val)) _ ((above_iff f.vmax (length f.val)).1 h.not_long) (
      of_false (below f.vmin (length f.val)) _ ((below_iff f.vmin (length f.val)).1 h.not_short) (
        of_false (fails f.vdate date_pattern f.val) _
          ((fails_iff f.vdate date_pattern f.val).1 h.right_date)
          (of_false (fails f.vemail email_pattern f.val) _
            ((fails_iff f.vemail email_pattern f.val).1 h.right_email)
            (of_false (fails f.vint int_pattern f.val) _
              ((fails_iff f.vint int_pattern f.val).1 h.right_int)
              (of_false (fails f.vphone phone_pattern f.val) _
                ((fails_iff f.vphone phone_pattern f.val).1 h.right_phone)
                (of_false (fails f.vname name_pattern f.val) _
                  ((fails_iff f.vname name_pattern f.val).1 h.right_name)
                  (of_false (fails f.vurl url_pattern f.val) _
                    ((fails_iff f.vurl url_pattern f.val).1 h.right_url)
                    ((fails_iff f.vip ip_pattern f.val).1 h.right_ip))))))))

accepted : (f : Field) → IsOk f → check_field f ≡ (accept f, true)
unfolding check_field
accepted f (inl (e, r)) = ground (arith, e, r)
accepted f (inr (n, h)) = ground (arith, n, is_wrong-IsRight f h)

accepted_only : (f : Field) → (check_field f).1 ≡ true → IsOk f
unfolding check_field
accepted_only f e = elim (Bool-cases (length f.val == 0)) [
  | inl z ↦ inl (ground (arith, z), ground (arith, z, e))
  | inr z ↦ inr (ground (arith, z), IsRight-of_checks f (ground (arith, z, e)))
]

refused : (f : Field) → (check_field f).1 ≡ false → check_field f ≡ (report_err f, false)
unfolding check_field
refused f e = ground (arith, e)

stays : (f : Field) (r : Field × Bool) (fs : List Field) → Outcome
stays f (g, b) fs =
    if b
    then before g (inputval fs)
    else record { fields = g ∷ fs; alerts = if f.has_message then 1 else 0; ret = false }

inputval_lem : (f : Field) (fs : List Field) → inputval (f ∷ fs) ≡ stays f (check_field f) fs
unfolding inputval stays
inputval_lem f fs = refl

inputval_ok :
    (f : Field) (fs : List Field) → IsOk f → inputval (f ∷ fs) ≡ before (accept f) (inputval fs)
unfolding stays
inputval_ok f fs h = inputval_lem f fs ∙ ap (λ r. stays f r fs) (accepted f h)

abbrev stopped : Field → List Field → Outcome
stopped f fs = record {
  fields = report_err f ∷ fs;
  alerts = if f.has_message then 1 else 0;
  ret = false;
}

inputval_bad :
    (f : Field) (fs : List Field) → (check_field f).1 ≡ false → inputval (f ∷ fs) ≡ stopped f fs
unfolding stays
inputval_bad f fs e = inputval_lem f fs ∙ ap (λ r. stays f r fs) (refused f e)

inputval-All : (fs : List Field) → (inputval fs).ret ≡ true → All IsOk fs
inputval-All [] e = tt
inputval-All (f ∷ fs) e = elim (Bool-cases (check_field f).1) [
  | inl ok ↦
      let h : IsOk f = accepted_only f ok in
      (h, inputval-All fs (ap (λ (o : Outcome). o.ret) (sym (inputval_ok f fs h)) ∙ e))
  | inr bad ↦ absurd (ground (arith, e, ap (λ (o : Outcome). o.ret) (inputval_bad f fs bad)))
]

All-inputval : (fs : List Field) → All IsOk fs → (inputval fs).ret ≡ true
unfolding inputval
All-inputval [] h = refl
All-inputval (f ∷ fs) (a, h) = ap (λ (o : Outcome). o.ret) (inputval_ok f fs a) ∙ All-inputval fs h

-- The check of a form comes out true exactly when every field is right, or empty where no value is
-- required.
pub inputval_iff : (fs : List Field) → ((inputval fs).ret ≡ true) ↔ All IsOk fs
inputval_iff fs = (inputval-All fs, All-inputval fs)

-- With fields that are right before one that is not: those are marked valid, this one is reported,
-- with its message if it has one, and the fields behind it stay as they are.
inputval_stops :
    (fs : List Field) (f : Field) (gs : List Field)
    → All IsOk fs
    → ¬ IsOk f
    → inputval (fs ++ f ∷ gs) ≡ record {
      fields = map accept fs ++ report_err f ∷ gs;
      alerts = if f.has_message then 1 else 0;
      ret = false;
    }
inputval_stops [] f gs h k = elim (Bool-cases (check_field f).1) [
  | inl ok ↦ absurd (k (accepted_only f ok))
  | inr bad ↦ inputval_bad f gs bad
]
inputval_stops (g ∷ fs) f gs (a, h) k =
    inputval_ok g (fs ++ f ∷ gs) a ∙ ap (before (accept g)) (inputval_stops fs f gs h k)
