-- ===== src/Member/Login.antt =====
-- Which part of the page is shown to whom: the member's or the guest's.
use cmoon.Base.{◌≡◌, Bool, true, false, not, List, [], ◌∷◌, Option, none, some, Text, arith}
use cmoon.Member.{Cookies, Page, login_check, logout, login, on_login}

abbrev pub is_some : Option Text → Bool
is_some none = false
is_some (some s) = true

-- `checked` is the check when the page is ready; a login that fails leaves the cookies.
pub data Event : Type 0 where
  checked logged_out refused : Event
  asked : Bool → Event
  accepted : Cookies → Event

module _ (md5 : Text → Text) where
  unfoldable pub step : Event → Page → Page
  unfolding login_check logout login on_login
  step checked p = login_check p
  step logged_out p = logout p
  step refused p = on_login false p.cookies p
  step (asked is_right) p = login md5 is_right p
  step (accepted cookies) p = on_login true cookies p

  unfoldable pub run : List Event → Page → Page
  unfolding step
  run [] p = p
  run (e ∷ es) p = run es (step e p)

  -- The member's part is shown if the cookie of the nick is there, and else the guest's.
  pub record ShowsOne (p : Page) : Type 0 where
    pub to_member : p.member_shown ≡ is_some p.cookies.mnick_esc
    pub to_guest : p.guest_shown ≡ not (is_some p.cookies.mnick_esc)

  login_check-ShowsOne : (p : Page) → ShowsOne (login_check p)
  unfolding login_check
  login_check-ShowsOne p = ground arith

  step-ShowsOne : (e : Event) (p : Page) → ShowsOne p → ShowsOne (step e p)
  unfolding step logout login on_login
  step-ShowsOne checked p h = login_check-ShowsOne p
  step-ShowsOne logged_out p h = ground arith
  step-ShowsOne refused p h = ground arith
  step-ShowsOne (asked is_right) p h = ground arith
  step-ShowsOne (accepted cookies) p h = ground arith

  keeps : (es : List Event) (p : Page) → ShowsOne p → ShowsOne (run es p)
  unfolding run
  keeps [] p h = h
  keeps (e ∷ es) p h = keeps es (step e p) (step-ShowsOne e p h)

  -- From a page that was checked, after any logins and logouts.
  pub run-ShowsOne : (es : List Event) (p : Page) → ShowsOne (run es (login_check p))
  run-ShowsOne es p = keeps es (login_check p) (login_check-ShowsOne p)
