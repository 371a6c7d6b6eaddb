-- ===== src/Fields/Examples.antt =====
-- The check of form fields at concrete values.
use cmoon.Base.{◌≡◌, ◌↔◌, refl, true, false, [], ◌∷◌, none, All, Text, units, inl, inr, arith}
use cmoon.Fields.Matching.{test, after}
use cmoon.Fields.{Field, ip_pattern, email_pattern, date_pattern, inputval}
use cmoon.Fields.Verdict.{IsOk, inputval_iff}

abbrev optional_field : Text → Field
optional_field s = record {
  val = s;
  vrequire = false;
  vmax = none;
  vmin = none;
  vdate = false;
  vemail = false;
  vint = false;
  vphone = false;
  vname = false;
  vurl = false;
  vip = false;
  has_message = true;
  valid = false;
  invalid = false;
  blinks = 0;
}

abbrev number : Text → Field
number s = record (optional_field s) { vint = true }

inputval_iff_example :
    ((inputval (number (units "12") ∷ [])).ret ≡ true) ↔ All IsOk (number (units "12") ∷ [])
inputval_iff_example = inputval_iff (number (units "12") ∷ [])

abbrev needed : Field
needed = record (optional_field []) { vrequire = true }

needed_fails : ¬ IsOk needed
needed_fails (inl (e, h)) = absurd (ground (arith, h))
needed_fails (inr (h, r)) = absurd (omega (arith, h))

an_email : test email_pattern (units "a.b@mail.example.com") ≡ true
unfolding test after email_pattern units
an_email = refl

no_email : test email_pattern (units "a.b@example") ≡ false
unfolding test after email_pattern units
no_email = refl

-- The parts of an address are not bounded by 255.
an_ip : test ip_pattern (units "999.1.22.333") ≡ true
unfolding test after ip_pattern units
an_ip = refl

a_date : test date_pattern (units "12/31/2012") ≡ true
unfolding test after date_pattern units
a_date = refl

not_a_date : test date_pattern (units "13/31/2012") ≡ false
unfolding test after date_pattern units
not_a_date = refl
