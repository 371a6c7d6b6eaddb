-- ===== src/Lcs/Leaving.antt =====
-- Where a login leads.
use cmoon.Base.{
  ℕ, zero, suc, ◌+◌, ◌≡◌, refl, ap, sym, ◌∙◌, subst, true, false, not, ◌&&◌, List, [], ◌∷◌, Option,
  none, some, All, Text, length, length-append, units, if◌then◌else◌, Exit, finished, arith,
  Bool-cases, inl, inr,
}
use cmoon.Robot.Order.{All-append}
use cmoon.Query.{Name, get_query_string}
use cmoon.Query.Address.{address, are_plain, is_name, value_of, value_or_nothing}
use cmoon.Query.Lookup.{get_query_string-address}
use cmoon.Lcs.{
  loginref_name, vikierr_name, Page, Cookies, Answer, Event, pressed, answered, timer, logged_out,
  step, run, login_check, login, on_login, timed, logout, onready, or_else, is_given, put_loginref,
  look_for_error, put_vikierr, shown_to, go_if,
}

-- With the answers that let a member in.
abbrev counted : Event → ℕ → ℕ
counted (pressed b) n = n
counted (answered c d) n = if d.is_success && is_given d.aname then suc n else n
counted timer n = n
counted logged_out n = n

abbrev pub logins : List Event → ℕ → ℕ
logins [] n = n
logins (e ∷ es) n = logins es (counted e n)

-- A page of an address, from which logins lead to `t`, one time for each that is no timer any more,
-- with either the part of a member or that of a guest.
pub record IsLeading (t : Text) (n : ℕ) (p : Page) : Type 0 where
  pub leads : or_else p.loginref p.href ≡ t
  pub was_led : All (λ g. g ≡ t) p.gone
  pub is_counted : length p.gone + p.timers ≡ n
  pub is_either : p.has_guest ≡ not p.has_member

shown_to-IsLeading :
    (t : Text) (n : ℕ) (o : Option Text) (p : Page) → IsLeading t n p → IsLeading t n (shown_to o p)
shown_to-IsLeading t n none p h = record {
  leads = h.leads;
  was_led = h.was_led;
  is_counted = h.is_counted;
  is_either = refl;
}
shown_to-IsLeading t n (some a) p h = record {
  leads = h.leads;
  was_led = h.was_led;
  is_counted = h.is_counted;
  is_either = refl;
}

on_login-IsLeading :
    (t : Text) (n : ℕ) (c : Cookies) (d : Answer) (p : Page)
    → IsLeading t n p
    → IsLeading t (counted (answered c d) n) (on_login d (record p { cookies = c }))
unfolding on_login
on_login-IsLeading t n c d p h = elim (Bool-cases (d.is_success && is_given d.aname)) [
  | inl e ↦ rw e (record {
    leads = h.leads;
    was_led = h.was_led;
    is_counted = omega (arith, h.is_counted);
    is_either = h.is_either;
  })
  | inr e ↦ rw e (record {
    leads = h.leads;
    was_led = h.was_led;
    is_counted = h.is_counted;
    is_either = h.is_either;
  })
]

go_if-IsLeading :
    (t : Text) (n k : ℕ) (p : Page) → p.timers ≡ k → IsLeading t n p → IsLeading t n (go_if k p)
go_if-IsLeading t n zero p e h = h
go_if-IsLeading t n (suc k) p e h = record {
  leads = h.leads;
  was_led = All-append (λ g. g ≡ t) p.gone (or_else p.loginref p.href) h.was_led h.leads;
  is_counted =
      omega (arith, e, h.is_counted, length-append p.gone (or_else p.loginref p.href ∷ []));
  is_either = h.is_either;
}

step-IsLeading :
    (t : Text) (n : ℕ) (e : Event) (p : Page)
    → IsLeading t n p
    → IsLeading t (counted e n) (step e p)
unfolding step login timed logout login_check
step-IsLeading t n (pressed true) p h = record {
  leads = h.leads;
  was_led = h.was_led;
  is_counted = h.is_counted;
  is_either = h.is_either;
}
step-IsLeading t n (pressed false) p h = h
step-IsLeading t n (answered c d) p h = on_login-IsLeading t n c d p h
step-IsLeading t n timer p h = go_if-IsLeading t n p.timers p refl h
step-IsLeading t n logged_out p h = shown_to-IsLeading t n none _ (record {
  leads = h.leads;
  was_led = h.was_led;
  is_counted = h.is_counted;
  is_either = h.is_either;
})

steps-IsLeading :
    (t : Text) (n : ℕ) (es : List Event) (p : Page)
    → IsLeading t n p
    → IsLeading t (logins es n) (run es p)
unfolding run
steps-IsLeading t n [] p h = h
steps-IsLeading t n (e ∷ es) p h =
    steps-IsLeading t (counted e n) es (step e p) (step-IsLeading t n e p h)

abbrev Leads : Text → Page × Exit → Type 0
Leads t r = (r.1 ≡ finished) × IsLeading t 0 r.0

put_vikierr-Leads : (t v : Text) (p : Page) → IsLeading t 0 p → Leads t (put_vikierr (some v) p)
put_vikierr-Leads t [] p h = (refl, h)
put_vikierr-Leads t (c ∷ v) p h = (
  refl,
  record {
    leads = h.leads;
    was_led = h.was_led;
    is_counted = h.is_counted;
    is_either = h.is_either;
  },
)

look_for_error-Leads :
    (t v : Text) (p : Page)
    → get_query_string vikierr_name p.href ≡ some v
    → IsLeading t 0 p
    → Leads t (look_for_error p)
unfolding look_for_error
look_for_error-Leads t v p e h =
    subst (λ o. Leads t (put_vikierr o p)) (sym e) (put_vikierr-Leads t v p h)

put_loginref-Leads :
    (r v : Text) (p : Page)
    → get_query_string vikierr_name p.href ≡ some v
    → p.gone ≡ []
    → p.timers ≡ 0
    → p.has_guest ≡ not p.has_member
    → Leads (or_else r p.href) (put_loginref (some r) p)
unfolding put_loginref
put_loginref-Leads [] v p e g k m =
    look_for_error-Leads p.href v (record p { loginref = [] }) e
      (record {
        leads = refl;
        was_led = subst (All (λ a. a ≡ p.href)) (sym g) tt;
        is_counted = omega (arith, ap length g, k);
        is_either = m;
      })
put_loginref-Leads (c ∷ r) v p e g k m =
    look_for_error-Leads (c ∷ r) v (record p { loginref = c ∷ r; is_overlaid = true }) e
      (record {
        leads = refl;
        was_led = subst (All (λ a. a ≡ c ∷ r)) (sym g) tt;
        is_counted = omega (arith, ap length g, k);
        is_either = m;
      })

shown_to-Leads :
    (o : Option Text) (r v : Text) (p : Page)
    → get_query_string vikierr_name p.href ≡ some v
    → p.gone ≡ []
    → p.timers ≡ 0
    → Leads (or_else r p.href) (put_loginref (some r) (shown_to o p))
shown_to-Leads none r v p e g k =
    put_loginref-Leads r v (record p { has_member = false; has_guest = true }) e g k refl
shown_to-Leads (some a) r v p e g k =
    put_loginref-Leads r v
      (record p { shown_name = a; has_guest = false; has_member = true; loginaname = a }) e g k refl

onready-Leads :
    (r v : Text) (p : Page)
    → get_query_string loginref_name p.href ≡ some r
    → get_query_string vikierr_name p.href ≡ some v
    → p.gone ≡ []
    → p.timers ≡ 0
    → Leads (or_else r p.href) (onready p)
unfolding onready login_check
onready-Leads r v p e f g k =
    subst (λ o. Leads (or_else r p.href) (put_loginref o (shown_to p.cookies.aname_esc p))) (sym e)
      (shown_to-Leads p.cookies.aname_esc r v p f g k)

-- From a page at an address that is made of a beginning without marks and `=`, of `?` and of names
-- with values that need no escapes, joined by `&`: nothing is thrown at first, and after any events
-- in any order every address that was gone to is the first `loginref` of the address, or the address
-- itself if that is not there or empty; there was one for each login that no timer waits for; and
-- either the part of a member or that of a guest is shown.
pub run-IsLeading :
    (base : Text) (q : Text × Text) (qs : List (Text × Text)) (es : List Event) (p : Page)
    → is_name base ≡ true
    → are_plain (q ∷ qs) ≡ true
    → p.href ≡ address base q qs
    → p.gone ≡ []
    → p.timers ≡ 0
    → ((onready p).1 ≡ finished)
      × IsLeading
          (or_else (value_or_nothing (value_of (units "loginref") (q ∷ qs))) (address base q qs))
          (logins es 0)
          (run es (onready p).0)
unfolding loginref_name vikierr_name
run-IsLeading base q qs es p g h e c k =
    let value : Text → Text = λ n. value_or_nothing (value_of n (q ∷ qs)) in
    let read : (n : Name) → get_query_string n p.href ≡ some (value n.text) =
      λ n. ap (get_query_string n) e ∙ get_query_string-address n base q qs g h in
    let start =
      onready-Leads (value (units "loginref")) (value (units "vikierr")) p (read loginref_name)
        (read vikierr_name) c k in
    (
      start.0,
      steps-IsLeading (or_else (value (units "loginref")) (address base q qs)) 0 es (onready p).0
          (subst (λ a. IsLeading (or_else (value (units "loginref")) a) 0 (onready p).0) e start.1),
    )
