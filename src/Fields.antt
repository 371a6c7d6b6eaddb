-- ===== src/Fields.antt =====
-- The check of form fields, lib/js/jquery.mninpval.js.
pub mod Matching
pub mod Patterns
pub mod Verdict
pub mod Dates
mod Examples
use cmoon.Base.{
  ℕ, suc, Bool, true, false, not, ◌&&◌, ◌||◌, List, [], ◌∷◌, ◌++◌, Option, none, some, ltb, leb,
  ◌==◌, length, if◌then◌else◌, Text, units,
}
use cmoon.Fields.Matching.{Regex, set, cat, alt, star, eps, plus, upto, times, test}

abbrev pub is_digit : ℕ → Bool
is_digit c = leb b'0' c && leb c b'9'

abbrev pub is_letter : ℕ → Bool
is_letter c = (leb b'a' c && leb c b'z') || (leb b'A' c && leb c b'Z')

abbrev pub among : Text → ℕ → Bool
among [] c = false
among (d ∷ ds) c = c == d || among ds c

abbrev pub one : ℕ → Regex
one d = set (λ c. c == d)

abbrev pub word : Text → Regex → Regex
word [] r = r
word (d ∷ ds) r = cat (one d) (word ds r)

-- `.` is no line terminator.
abbrev pub is_any : ℕ → Bool
is_any c = not (c == 10 || (c == 13 || (c == 0x2028 || c == 0x2029)))

abbrev pub digit : Regex
digit = set is_digit

-- `/^([\d]|1[0,1,2]|0[1-9])(\-|\/|\.)([0-9]|[0,1,2][0-9]|3[0,1])(\-|\/|\.)\d{4}$/`
unfoldable pub date_pattern : Regex
date_pattern =
    let mark : Regex = alt (one b'-') (alt (one b'/') (one b'.')) in
    let month : Regex = alt digit (
      alt (cat (one b'1') (set (λ c. c == b'0' || (c == b',' || (c == b'1' || c == b'2')))))
        (cat (one b'0') (set (λ c. leb b'1' c && leb c b'9')))) in
    let day : Regex = alt digit (
      alt (cat (set (λ c. c == b'0' || (c == b',' || (c == b'1' || c == b'2')))) digit)
        (cat (one b'3') (set (λ c. c == b'0' || (c == b',' || c == b'1'))))) in
    cat month (cat mark (cat day (cat mark (times 4 digit))))

abbrev pub is_name_char : ℕ → Bool
is_name_char c =
    is_letter c || (is_digit c || (c == b'_' || (c == b'.' || (c == b'-' || c == b'+'))))

abbrev pub is_host_char : ℕ → Bool
is_host_char c = is_letter c || (is_digit c || c == b'-')

abbrev pub is_alnum : ℕ → Bool
is_alnum c = is_letter c || is_digit c

-- `/^([a-zA-Z0-9_\.\-\+])+\@(([a-zA-Z0-9\-])+\.)+([a-zA-Z0-9]{2,4})+$/`
unfoldable pub email_pattern : Regex
email_pattern =
    let top : Regex = cat (set is_alnum) (cat (set is_alnum) (upto 2 (set is_alnum))) in
    cat (plus (set is_name_char))
      (cat (one b'@') (cat (plus (cat (plus (set is_host_char)) (one b'.'))) (plus top)))

-- `/^\d{1,10}$/`
unfoldable pub int_pattern : Regex
int_pattern = cat digit (upto 9 digit)

abbrev pub is_phone_char : ℕ → Bool
is_phone_char c = is_digit c || c == b'-'

-- `/^[0-9\-]+$/`
unfoldable pub phone_pattern : Regex
phone_pattern = plus (set is_phone_char)

abbrev pub is_person_char : ℕ → Bool
is_person_char c = is_letter c || (is_digit c || (c == b'.' || (c == b'-' || c == 39)))

-- `/^[a-zA-Z0-9\.\-']*$/`
unfoldable pub name_pattern : Regex
name_pattern = star (set is_person_char)

-- `/^http:\/\/.*$/`
unfoldable pub url_pattern : Regex
url_pattern = word (units "http://") (star (set is_any))

-- `/^(\d{1,3}\.){3}\d{1,3}$/`
unfoldable pub ip_pattern : Regex
ip_pattern = let part : Regex = cat digit (upto 2 digit) in cat (times 3 (cat part (one b'.'))) part

-- A field: its classes, the numbers that `vmax` and `vmin` read as, and whether there is a message
-- to alert. `valid` and `invalid` are the classes that a check sets; `blinks` counts the calls of
-- the plugin `mblink`, which makes a field that is wrong blink in the class `invalid`.
pub record Field : Type 0 where
  pub val : Text
  pub vrequire : Bool
  pub vmax : Option ℕ
  pub vmin : Option ℕ
  pub vdate : Bool
  pub vemail : Bool
  pub vint : Bool
  pub vphone : Bool
  pub vname : Bool
  pub vurl : Bool
  pub vip : Bool
  pub has_message : Bool
  pub valid : Bool
  pub invalid : Bool
  pub blinks : ℕ

abbrev pub above : Option ℕ → ℕ → Bool
above none n = false
above (some k) n = ltb k n

abbrev pub below : Option ℕ → ℕ → Bool
below none n = false
below (some k) n = ltb n k

abbrev pub fails : Bool → Regex → Text → Bool
fails wanted r s = wanted && not (test r s)

-- Whether one of the checks behind the test for an empty value fails, in their order.
unfoldable pub is_wrong : Field → Bool
is_wrong f =
    if above f.vmax (length f.val)
    then true
    else if below f.vmin (length f.val)
    then true
    else if fails f.vdate date_pattern f.val
    then true
    else if fails f.vemail email_pattern f.val
    then true
    else if fails f.vint int_pattern f.val
    then true
    else if fails f.vphone phone_pattern f.val
    then true
    else if fails f.vname name_pattern f.val
    then true
    else if fails f.vurl url_pattern f.val
    then true
    else fails f.vip ip_pattern f.val

-- `reportErr`, without its alert.
unfoldable pub report_err : Field → Field
report_err f = record f { valid = false; blinks = suc f.blinks }

abbrev pub accept : Field → Field
accept f = record f { invalid = false; valid = true }

-- The function of `each`: the field afterwards, and whether the next one is checked.
unfoldable pub check_field : Field → Field × Bool
unfolding report_err
check_field f =
    if length f.val == 0
    then (if f.vrequire then (report_err f, false) else (accept f, true))
    else if is_wrong f
    then (report_err f, false)
    else (accept f, true)

-- `inputval`: the fields afterwards, the alerts, and the result.
pub record Outcome : Type 0 where
  pub fields : List Field
  pub alerts : ℕ
  pub ret : Bool

abbrev pub before : Field → Outcome → Outcome
before f o = record o { fields = f ∷ o.fields }

unfoldable pub inputval : List Field → Outcome
unfolding check_field
inputval [] = record { fields = []; alerts = 0; ret = true }
inputval (f ∷ fs) =
    let (g, goes_on) = check_field f in
    if goes_on
    then before g (inputval fs)
    else record { fields = g ∷ fs; alerts = if f.has_message then 1 else 0; ret = false }
