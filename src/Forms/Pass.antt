-- ===== src/Forms/Pass.antt =====
-- The change of a password, dida/fly/js/member/pass.js and pop/fly/js/app/pass.js, over UTF-16 texts.
use cmoon.Base.{
  ap, sym, ◌∙◌, inl, inr, Bool-cases, length, length-append, ◌≡◌, refl, ◌≢◌, ◌↔◌, Bool, true, false,
  not, List, [], ◌∷◌, ◌++◌, Option, if◌then◌else◌, Text, text_eq, text_eq_iff, text_ne, units,
  arith,
}
use cmoon.Forms.{Marks, without, load, settle, fail}

-- `sent` is what is posted as the new password; the mark of the check stands at the second field.
pub record Change : Type 0 where
  pub secret : Text
  pub again : Text
  pub at_again : Marks
  pub at_submit : Marks
  pub sent : List Text

abbrev pub mismatch : Text
mismatch = units "两次密码不匹配"

-- What the check of the two fields does where its notes go.
unfoldable pub compare_marks : Bool → Marks → Marks
unfolding fail
compare_marks is_same m =
    let cleared : Marks = record m {
      notes = without "vres" m.notes;
      success = false;
      error = false;
    } in
    if not is_same
    then record cleared {
      error = true;
      notes = cleared.notes ++ record { cls = "vres"; msg = mismatch } ∷ [];
    }
    else record cleared { success = true }

-- `msnCheck`, which is called for a field, whose parent is marked, or by `memberPass` for the module
-- itself, which is no element and has no parent.
pub data Caller : Type 0 where
  field module_itself : Caller

unfoldable pub msn_check : Caller → Bool → Change → Change × Bool
unfolding compare_marks
msn_check x is_right c = if not is_right then (c, false) else (
  elim x [
    | field ↦ record c { at_again = compare_marks (text_eq c.secret c.again) c.at_again }
    | module_itself ↦ c
  ],
  text_eq c.secret c.again,
)

-- `memberPass`, and its answer.
unfoldable pub member_pass : (Text → Text) → Bool → Change → Change
unfolding msn_check load
member_pass md5 is_right c =
    if not is_right
    then c
    else (let (d, is_same) = msn_check module_itself is_right c in
        if not is_same then d else record d {
          at_submit = load "vres" d.at_submit;
          sent = d.sent ++ md5 (md5 d.secret) ∷ [];
        })

unfoldable pub on_member_pass : Option Text → Change → Change
unfolding settle
on_member_pass o c = record c { at_submit = settle "vres" o c.at_submit }

-- `asnCheck`, `appPass` and its answer.
unfoldable pub asn_check : Caller → Bool → Change → Change × Bool
unfolding compare_marks
asn_check x is_right c = if not is_right then (c, false) else (
  elim x [
    | field ↦ record c { at_again = compare_marks (text_eq c.secret c.again) c.at_again }
    | module_itself ↦ c
  ],
  text_eq c.secret c.again,
)

unfoldable pub app_pass : (Text → Text) → Bool → Change → Change
unfolding asn_check load
app_pass md5 is_right c =
    if not is_right
    then c
    else (let (d, is_same) = asn_check module_itself is_right c in
        if not is_same then d else record d {
          at_submit = load "vres" d.at_submit;
          sent = d.sent ++ md5 (md5 d.secret) ∷ [];
        })

unfoldable pub on_app_pass : Option Text → Change → Change
unfolding settle
on_app_pass o c = record c { at_submit = settle "vres" o c.at_submit }

-- Where the fields differ, the button changes nothing on the page, and does not say why.
member_pass_mismatch :
    (md5 : Text → Text) (c : Change) → c.secret ≢ c.again → member_pass md5 true c ≡ c
unfolding member_pass msn_check
member_pass_mismatch md5 c h = rw (text_ne c.secret c.again h) refl

member_pass_match :
    (md5 : Text → Text) (c : Change)
    → c.secret ≡ c.again
    → (member_pass md5 true c).sent ≡ c.sent ++ md5 (md5 c.secret) ∷ []
unfolding member_pass msn_check
member_pass_match md5 c e = rw ((text_eq_iff c.secret c.again).1 e) refl

longer : (ss : List Text) (s : Text) → ss ≢ ss ++ s ∷ []
longer ss s e = absurd (omega (arith, ap length e, length-append ss (s ∷ [])))

-- With fields that are right, the button sends the digest of the password exactly if the two fields
-- hold the same text.
member_pass-sent_iff :
    (md5 : Text → Text) (c : Change)
    → ((member_pass md5 true c).sent ≡ c.sent ++ md5 (md5 c.secret) ∷ []) ↔ (c.secret ≡ c.again)
member_pass-sent_iff md5 c = (
  λ e. elim (Bool-cases (text_eq c.secret c.again)) [
    | inl k ↦ (text_eq_iff c.secret c.again).0 k
    | inr k ↦
        let differ : c.secret ≢ c.again = λ g. cc (k, (text_eq_iff c.secret c.again).1 g) in
        absurd (
          longer c.sent (md5 (md5 c.secret))
            (ap (λ (d : Change). d.sent) (sym (member_pass_mismatch md5 c differ)) ∙ e))
  ],
  member_pass_match md5 c,
)
