-- ===== src/Rock/Login.antt =====
-- Where a login leads after an operation that wanted one.
use cmoon.Base.{
  ◌≡◌, refl, ap, sym, ◌∙◌, Bool, ◌&&◌, not, List, [], ◌∷◌, ◌++◌, Option, none, some, if◌then◌else◌,
  Text, text_eq, units, Bool-cases, inl, inr,
}
use cmoon.Rock.{
  LoginOpts, Page, CbkOpts, Answer, sensitive, json_cbk_suc, title_of, rurl_of, modify_title,
  titled, jumped, jump_to, jump_to_rurl,
}

-- An answer comes, the form of the login is opened, or the login is a success.
pub data Event : Type 0 where
  answered : CbkOpts → Answer → Event
  opened : Event
  logged_in : Event

unfoldable pub step : Event → Page → Page
unfolding json_cbk_suc modify_title jump_to_rurl
step (answered o d) p = (json_cbk_suc o d p).0
step opened p = modify_title p
step logged_in p = jump_to_rurl p

unfoldable pub run : List Event → Page → Page
unfolding step
run [] p = p
run (e ∷ es) p = run es (step e p)

abbrev pub wants_login : Answer → Bool
unfolding units sensitive
wants_login d = not (text_eq d.success (units "1")) && text_eq d.errmsg sensitive

-- The address that waits for a login, empty for none, and those that were gone to.
abbrev pub left : Text → List Text → Text × List Text
left [] g = ([], g)
left (c ∷ t) g = ([], g ++ (c ∷ t) ∷ [])

abbrev pub account : Event → Text × List Text → Text × List Text
unfolding wants_login
account (answered o d) (w, g) = (if wants_login d then o.rurl else w, g)
account opened (w, g) = (w, g)
account logged_in (w, g) = left w g

abbrev pub accounts : List Event → Text × List Text → Text × List Text
unfolding account
accounts [] a = a
accounts (e ∷ es) a = accounts es (account e a)

abbrev waiting_in : Option LoginOpts → Text
waiting_in none = []
waiting_in (some l) = l.rurl

abbrev pub of_page : Page → Text × List Text
of_page p = (waiting_in p.login_opts, p.gone)

rurl_of-of_page : (t : Text) (p : Page) → of_page (rurl_of t p) ≡ of_page p
rurl_of-of_page [] p = refl
rurl_of-of_page (c ∷ t) p = refl

title_of-of_page :
    (t : Text) (l : LoginOpts) (p : Page)
    → p.login_opts ≡ some l
    → of_page (title_of t l p) ≡ of_page p
unfolding title_of
title_of-of_page [] l p e = refl
title_of-of_page (c ∷ t) l p e = ap (λ o. (waiting_in o, p.gone)) (sym e)

opened-of_page :
    (l : Option LoginOpts) (p : Page) → p.login_opts ≡ l → of_page (titled l p) ≡ of_page p
unfolding titled
opened-of_page none p e = refl
opened-of_page (some l) p e =
    rurl_of-of_page l.rurl (title_of l.title l p) ∙ title_of-of_page l.title l p e

jump_to-left :
    (t : Text) (l : LoginOpts) (p : Page)
    → waiting_in p.login_opts ≡ t
    → of_page (jump_to t l p) ≡ left t p.gone
jump_to-left [] l p e = ap (λ w. (w, p.gone)) e
jump_to-left (c ∷ t) l p e = refl

logged_in-left :
    (l : Option LoginOpts) (p : Page)
    → p.login_opts ≡ l
    → of_page (jumped l p) ≡ left (waiting_in l) p.gone
logged_in-left none p e = ap (λ o. (waiting_in o, p.gone)) e
logged_in-left (some l) p e = jump_to-left l.rurl l p (ap waiting_in e)

answered-account :
    (o : CbkOpts) (d : Answer) (p : Page)
    → of_page (json_cbk_suc o d p).0 ≡ account (answered o d) (of_page p)
unfolding json_cbk_suc account wants_login
answered-account o d p = elim (Bool-cases (text_eq d.success (units "1"))) [
  | inl e ↦ elim (Bool-cases o.suctip) [ inl b ↦ rw (e, b) refl | inr b ↦ rw (e, b) refl ]
  | inr e ↦ elim (Bool-cases (text_eq d.errmsg sensitive)) [
    | inl b ↦ rw (e, b) refl
    | inr b ↦ rw (e, b) refl
  ]
]

step-account : (e : Event) (p : Page) → of_page (step e p) ≡ account e (of_page p)
unfolding step modify_title jump_to_rurl account
step-account (answered o d) p = answered-account o d p
step-account opened p = opened-of_page p.login_opts p refl
step-account logged_in p = logged_in-left p.login_opts p refl

-- Whatever answers and logins come, in any order: the address that waits for a login and those that
-- were gone to are those of a plain account, in which an operation that wants a login leaves its
-- address, and the next login goes there, once.
pub run-accounts : (es : List Event) (p : Page) → of_page (run es p) ≡ accounts es (of_page p)
unfolding run accounts
run-accounts [] p = refl
run-accounts (e ∷ es) p = run-accounts es (step e p) ∙ ap (accounts es) (step-account e p)
