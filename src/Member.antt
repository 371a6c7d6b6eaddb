-- ===== src/Member.antt =====
-- What the pages of dididada.org share, dida/fly/js/bmoon.dida.js: who is logged in, and the city
-- of a place that the map service found.
pub mod Cities
pub mod Login
pub mod Points
mod Examples
use cmoon.Base.{
  ℕ, zero, suc, ◌+◌, String, Bool, true, false, not, List, [], ◌∷◌, ◌++◌, Option, none, some,
  str_eq, ltb, length, get_elem?, if◌then◌else◌, Text,
}

-- `{types, short_name}`
pub record Component : Type 0 where
  pub types : List String
  pub short_name : String

-- `arrs[i].types[1] != 'political'`
unfoldable pub is_other : Component → Bool
is_other c = elim (get_elem? c.types 1) [ none ↦ true | some s ↦ not (str_eq s "political") ]

-- `arrs.splice(i, 1)`
unfoldable pub splice_at : ℕ → List Component → List Component
splice_at i [] = []
splice_at zero (c ∷ cs) = cs
splice_at (suc i) (c ∷ cs) = c ∷ splice_at i cs

-- The loop of `getCityByGeoresult`, on fuel.
unfoldable pub geo_loop : ℕ → ℕ → List Component → Option (List Component)
unfolding is_other splice_at
geo_loop zero i arrs = none
geo_loop (suc f) i arrs = elim (get_elem? arrs i) [
  | none ↦ some arrs
  | some c ↦ geo_loop f (suc i) (if is_other c then splice_at i arrs else arrs)
]

-- `get`: the names are asked for one by one until one has a city. `answer` is what `/json/city/s`
-- answers, `none` for no city; the names that were asked for come with the result.
unfoldable pub get_city {ℓ} :
    {City : Type ℓ} → (String → Option City) → List String → List String × Option City
get_city answer [] = ([], none)
get_city answer (n ∷ ns) = elim (answer n) [
  | some c ↦ (n ∷ [], some c)
  | none ↦ let (asked, c) = get_city answer ns in (n ∷ asked, c)
]

-- The cookies of a member.
pub record Cookies : Type 0 where
  pub mname : Option Text
  pub mnick : Option Text
  pub mnick_esc : Option Text
  pub msn : Option Text

-- The part of the page that says who is logged in, and what leaves the browser.
pub data Request : Type 0 where
  login_request : Text → Text → Request
  logout_request : Request

pub record Page : Type 0 where
  pub cookies : Cookies
  pub nick_text : Text
  pub member_shown : Bool
  pub guest_shown : Bool
  pub login_mname : Text
  pub login_msn : Text
  pub is_overlaid : Bool
  pub reloads : Bool
  pub reload_timers : ℕ
  pub alerts : ℕ
  pub requests : List Request

-- What a jQuery field becomes by `val(null)`: empty.
abbrev pub field_text : Option Text → Text
field_text none = []
field_text (some s) = s

-- `loginCheck`
unfoldable pub login_check : Page → Page
login_check p = elim p.cookies.mnick_esc [
  | some nick ↦ record p {
    nick_text = nick;
    guest_shown = false;
    member_shown = true;
    login_mname = field_text p.cookies.mname;
  }
  | none ↦ record p { member_shown = false; guest_shown = true }
]

-- `logout`
unfoldable pub logout : Page → Page
unfolding login_check
logout p = login_check (record p {
  requests = p.requests ++ logout_request ∷ [];
  cookies = record { mname = none; mnick = none; mnick_esc = none; msn = none };
  login_mname = [];
})

-- `login`: `is_right` is the check of the fields `.VAL_LOGIN`, `md5` the plugin.
unfoldable pub login : (Text → Text) → Bool → Page → Page
login md5 is_right p =
    if is_right
    then record p {
      requests = p.requests ++ login_request p.login_mname (md5 (md5 p.login_msn)) ∷ [];
    }
    else p

-- Its answer: `success` is 1 and there is an `mname`; the server has set the cookies.
unfoldable pub on_login : Bool → Cookies → Page → Page
unfolding login_check
on_login is_success cookies p₀ =
    let p : Page = record p₀ { cookies = cookies } in
    if is_success
    then (let q : Page = login_check (record p { is_overlaid = false }) in
        record q { reload_timers = if q.reloads then suc q.reload_timers else q.reload_timers })
    else record p { alerts = suc p.alerts }
