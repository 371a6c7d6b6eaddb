-- ===== src/Search/Subscribing.antt =====
-- The boxes that subscribe to a line, dida/fly/js/index.js, and the login that they ask for.
use cmoon.Base.{
  ℕ, suc, ◌≡◌, ap, ◌∙◌, Bool, true, false, ◌&&◌, List, [], ◌∷◌, Option, none, some, ◌==◌,
  if◌then◌else◌, Text, arith,
}
use cmoon.Member.{Page, login_check, login, on_login, logout}
use cmoon.Member.Login

-- A box with its `value` and whether it is checked.
pub record Box : Type 0 where
  pub value : ℕ
  pub is_checked : Bool

-- The part of the page that says who is logged in, the field of the telephone number, how often it
-- was asked for, and whether the hint of the login is there.
pub record Form : Type 0 where
  pub page : Page
  pub phone : Text
  pub infos : ℕ
  pub is_hinted : Bool

abbrev pub is_blank : Text → Bool
is_blank [] = true
is_blank (c ∷ s) = false

abbrev pub ask_phone : Box → Form → Form
ask_phone b f = if (b.value == 1) && is_blank f.phone then record f { infos = suc f.infos } else f

abbrev pub has_nick : Page → Bool
has_nick p = Login.is_some p.cookies.mnick_esc

-- `loginCheck`, and the overlay where it gives false.
abbrev pub ask_login : Form → Form
unfolding login_check
ask_login f = if has_nick f.page then record f { page = login_check f.page } else record f {
  page = record (login_check f.page) { reloads = false; is_overlaid = true };
  is_hinted = true;
}

-- A click on a box, which the browser has checked or not: `is_right` is the check of its fields.
unfoldable pub subscribe : Bool → Box → Form → Box × Form
unfolding ask_login
subscribe is_right b f =
    if b.is_checked
    then (if is_right then b else record b { is_checked = false }, ask_login (ask_phone b f))
    else (b, f)

-- The form after a box of a value was checked.
abbrev pub checked_form : Bool → ℕ → Form → Form
unfolding subscribe
checked_form is_right v f = (subscribe is_right (record { value = v; is_checked = true }) f).1

-- The answer to `/json/member/info`.
unfoldable pub on_info : Option Text → Form → Form
on_info none f = f
on_info (some s) f = record f { phone = s }

module _ (md5 : Text → Text) where
  -- Whatever the member's part does, a page that does not reload goes on so.
  abbrev IsKept : ℕ → Page → Type 0
  IsKept n p = (p.reloads ≡ false) × (p.reload_timers ≡ n)

  step-IsKept : (e : Login.Event) (n : ℕ) (p : Page) → IsKept n p → IsKept n (Login.step md5 e p)
  unfolding Login.step login_check login logout on_login
  step-IsKept Login.checked n p h = ground arith
  step-IsKept Login.logged_out n p h = ground arith
  step-IsKept Login.refused n p h = ground arith
  step-IsKept (Login.asked b) n p h = ground arith
  step-IsKept (Login.accepted c) n p h = ground arith

  run-IsKept :
      (es : List Login.Event) (n : ℕ) (p : Page) → IsKept n p → IsKept n (Login.run md5 es p)
  unfolding Login.run
  run-IsKept [] n p h = h
  run-IsKept (e ∷ es) n p h = run-IsKept es n (Login.step md5 e p) (step-IsKept e n p h)

  ask_phone-page : (b : Box) (f : Form) → (ask_phone b f).page ≡ f.page
  ask_phone-page b f = ground arith

  ask_login-IsKept :
      (f : Form)
      → has_nick f.page ≡ false
      → ((ask_login f).page.is_overlaid ≡ true) × IsKept f.page.reload_timers (ask_login f).page
  unfolding ask_login login_check
  ask_login-IsKept f h = ground (arith, h)

  -- If a guest checks a box, the login is laid over the page, and whatever logins and logouts follow,
  -- none of them reloads the page, so that what was entered stays.
  pub subscribe-reload_timers :
      (is_right : Bool) (v : ℕ) (f : Form) (es : List Login.Event)
      → has_nick f.page ≡ false
      → ((checked_form is_right v f).page.is_overlaid ≡ true)
        × ((Login.run md5 es (checked_form is_right v f).page).reload_timers ≡ f.page.reload_timers)
  unfolding subscribe checked_form
  subscribe-reload_timers is_right v f es h =
      let b : Box = record { value = v; is_checked = true } in
      let same : (ask_phone b f).page ≡ f.page = ask_phone-page b f in
      let (over, kept) = ask_login-IsKept (ask_phone b f) (ap has_nick same ∙ h) in
      (
        over,
        (run-IsKept es (ask_phone b f).page.reload_timers (ask_login (ask_phone b f)).page kept).1
            ∙ ap (λ (p : Page). p.reload_timers) same,
      )
