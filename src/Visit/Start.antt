-- ===== src/Visit/Start.antt =====
-- The cookies of a visitor, from one page to the next: `initialize` of livecs.js.
use cmoon.Base.{
  ℕ, zero, suc, ◌+◌, ◌≡◌, ◌≢◌, refl, String, Bool, List, [], ◌∷◌, ◌++◌, Option, none, some, str_eq,
  str_ne, if◌then◌else◌, Text, units, decimal, arith, ap, ◌∙◌,
}
use cmoon.Paging.Numerals.{Parsed, nan, minus, plus, parse_int, parse_int-decimal}

pub record Cookies : Type 0 where
  pub lcs_uname : Option String
  pub lcs_utime : Option Text

-- A page that is loaded: what `randomName` gives there, and whether the client library restores a
-- session.
pub record Load : Type 0 where
  pub random : String
  pub restore : Bool

-- `ape.opts.uname`
unfoldable pub uname_of : String → Option String → String
uname_of random none = random
uname_of random (some s) = if str_eq s "" then random else s

abbrev add_one : Parsed → Parsed
add_one nan = nan
add_one (plus n) = plus (n + 1)
add_one (minus zero) = plus 1
add_one (minus (suc zero)) = plus 0
add_one (minus (suc (suc n))) = minus (suc n)

-- `ape.opts.utime`: the cookie's number, or 0 where there is none or it is empty, and 1.
unfoldable pub utime_of : Option Text → Parsed
utime_of none = plus 1
utime_of (some []) = plus 1
utime_of (some (u ∷ us)) = add_one (parse_int (u ∷ us))

-- `'' + n`
unfoldable pub number_text : Parsed → Text
number_text nan = units "NaN"
number_text (plus n) = decimal n
number_text (minus n) = units "-" ++ decimal n

-- What `initialize` leaves in the cookies.
unfoldable pub initialize : Load → Cookies → Cookies
initialize l c = record {
  lcs_uname = some (uname_of l.random c.lcs_uname);
  lcs_utime = if l.restore then c.lcs_utime else some (number_text (utime_of c.lcs_utime));
}

unfoldable pub initialize_all : List Load → Cookies → Cookies
unfolding initialize
initialize_all [] c = c
initialize_all (l ∷ ls) c = initialize_all ls (initialize l c)

uname_kept :
    (s : String) (ls : List Load) (c : Cookies)
    → s ≢ ""
    → c.lcs_uname ≡ some s
    → (initialize_all ls c).lcs_uname ≡ some s
unfolding initialize_all initialize uname_of
uname_kept s [] c h e = e
uname_kept s (l ∷ ls) c h e =
    uname_kept s ls (initialize l c) h (rw e (ground (arith, str_ne s "" h)))

-- The visits that are counted: the pages that restore no session.
abbrev pub visits : List Load → ℕ
visits [] = 0
visits (l ∷ ls) = if l.restore then visits ls else suc (visits ls)

abbrev pub counted : ℕ → Option Text
counted zero = none
counted (suc n) = some (decimal (suc n))

utime_of_number : (s : Text) (n : ℕ) → parse_int s ≡ plus n → utime_of (some s) ≡ plus (suc n)
unfolding utime_of parse_int
utime_of_number [] n e = absurd (ground arith)
utime_of_number (u ∷ us) n e = ground (arith, e)

utime_of-counted : (k : ℕ) → utime_of (counted k) ≡ plus (suc k)
unfolding utime_of
utime_of-counted zero = refl
utime_of-counted (suc n) = utime_of_number (decimal (suc n)) (suc n) (parse_int-decimal (suc n))

initialize-counted :
    (k : ℕ) (l : Load) (c : Cookies)
    → c.lcs_utime ≡ counted k
    → (initialize l c).lcs_utime ≡ counted (if l.restore then k else suc k)
unfolding initialize number_text
initialize-counted k l c e = ground (arith, e, utime_of-counted k)

utime-counted :
    (k : ℕ) (ls : List Load) (c : Cookies)
    → c.lcs_utime ≡ counted k
    → (initialize_all ls c).lcs_utime ≡ counted (k + visits ls)
unfolding initialize_all initialize number_text
utime-counted k [] c e = ground (arith, e)
utime-counted k (l ∷ ls) c e =
    utime-counted (if l.restore then k else suc k) ls (initialize l c) (initialize-counted k l c e)
    ∙ ap counted (ground arith)

-- Over any pages, from a browser with neither cookie: the name that the first page draws, if it is
-- not empty, is the visitor's on all of them, and the cookie of visits reads as the number of pages
-- that restored no session, if there is one.
initialize_all_lem :
    (l : Load) (ls : List Load)
    → l.random ≢ ""
    → let c = initialize_all (l ∷ ls) (record { lcs_uname = none; lcs_utime = none }) in
      (c.lcs_uname ≡ some l.random) × (c.lcs_utime ≡ counted (visits (l ∷ ls)))
unfolding initialize_all initialize uname_of
initialize_all_lem l ls h =
    let fresh : Cookies = record { lcs_uname = none; lcs_utime = none } in
    (
      uname_kept l.random ls (initialize l fresh) h refl,
      utime-counted 0 (l ∷ ls) fresh refl ∙ ap counted (omega arith),
    )
