-- ===== src/Lcs.antt =====
-- The login of the pages of bomdoo.com, `bmoon.lcs` of pop/fly/js/bmoon.lcs.js, with what it reads
-- of the address by Query. A text that is not there is the empty one where the code takes both alike;
-- a page that goes to an address stays as it is until it is replaced.
pub mod Leaving
mod Examples
use cmoon.Base.{
  refl, ℕ, zero, suc, ◌+◌, ◌-◌, Bool, true, false, ◌&&◌, List, [], ◌∷◌, ◌++◌, Option, none, some,
  Text, units, if◌then◌else◌, Exit, finished, uri_error,
}
use cmoon.Query.{Name, get_query_string}

pub record Cookies : Type 0 where
  pub aname : Option Text
  pub aname_esc : Option Text
  pub asn : Option Text
  pub masn : Option Text

-- The parts of a page: the name that is shown, which of `#bd-member` and `#bd-guest` is, the field of
-- the name, the overlay of the login, the error in place of the content; and the requests, the
-- alerts, the timers that lead away, and the addresses that were gone to.
pub record Page : Type 0 where
  pub href : Text
  pub cookies : Cookies
  pub shown_name : Text
  pub has_member : Bool
  pub has_guest : Bool
  pub loginaname : Text
  pub loginref : Text
  pub is_overlaid : Bool
  pub text_error : Option Text
  pub requests : ℕ
  pub alerts : List Text
  pub timers : ℕ
  pub gone : List Text

-- `loginCheck`
abbrev pub shown_to : Option Text → Page → Page
shown_to none p = record p { has_member = false; has_guest = true }
shown_to (some a) p = record p {
  shown_name = a;
  has_guest = false;
  has_member = true;
  loginaname = a;
}

unfoldable pub login_check : Page → Page
login_check p = shown_to p.cookies.aname_esc p

-- `a || b`
abbrev pub or_else : Text → Text → Text
or_else [] t = t
or_else (c ∷ s) t = c ∷ s

abbrev pub loginref_name : Name
unfolding units
loginref_name = record { text = units "loginref"; plain = refl }

abbrev pub vikierr_name : Name
unfolding units
vikierr_name = record { text = units "vikierr"; plain = refl }

-- `onready`, where either look at the address may throw.
abbrev pub put_vikierr : Option Text → Page → Page × Exit
put_vikierr none p = (p, uri_error)
put_vikierr (some []) p = (p, finished)
put_vikierr (some (c ∷ e)) p = (record p { text_error = some (c ∷ e) }, finished)

abbrev pub look_for_error : Page → Page × Exit
unfolding vikierr_name
look_for_error p = put_vikierr (get_query_string vikierr_name p.href) p

abbrev pub put_loginref : Option Text → Page → Page × Exit
unfolding look_for_error
put_loginref none p = (p, uri_error)
put_loginref (some []) p = look_for_error (record p { loginref = [] })
put_loginref (some (c ∷ r)) p = look_for_error (record p { loginref = c ∷ r; is_overlaid = true })

unfoldable pub onready : Page → Page × Exit
unfolding login_check put_loginref loginref_name
onready p = put_loginref (get_query_string loginref_name p.href) (login_check p)

-- `login`, with what `inputval` says of the fields.
unfoldable pub login : Bool → Page → Page
login is_right p = if is_right then record p { requests = suc p.requests } else p

pub record Answer : Type 0 where
  pub is_success : Bool
  pub aname : Text
  pub errmsg : Text

abbrev pub is_given : Text → Bool
is_given [] = false
is_given (c ∷ s) = true

-- The callback of `login`.
unfoldable pub on_login : Answer → Page → Page
unfolding units
on_login d p =
    if d.is_success && is_given d.aname
    then record p { is_overlaid = false; timers = suc p.timers }
    else record p { alerts = p.alerts ++ or_else d.errmsg (units "操作失败， 请稍后再试") ∷ [] }

-- Its timer.
abbrev pub go_if : ℕ → Page → Page
go_if zero p = p
go_if (suc n) p = record p { timers = n; gone = p.gone ++ or_else p.loginref p.href ∷ [] }

unfoldable pub timed : Page → Page
timed p = go_if p.timers p

-- `logout`
unfoldable pub logout : Page → Page
unfolding login_check
logout p = login_check (record p {
  requests = suc p.requests;
  cookies = record { aname = none; aname_esc = none; asn = none; masn = none };
  loginaname = [];
})

-- The service may change the cookies with any of its answers.
pub data Event : Type 0 where
  pressed : Bool → Event
  answered : Cookies → Answer → Event
  timer : Event
  logged_out : Event

unfoldable pub step : Event → Page → Page
unfolding login on_login timed logout
step (pressed b) p = login b p
step (answered c d) p = on_login d (record p { cookies = c })
step timer p = timed p
step logged_out p = logout p

unfoldable pub run : List Event → Page → Page
unfolding step
run [] p = p
run (e ∷ es) p = run es (step e p)
