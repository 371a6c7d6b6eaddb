-- ===== src/Search/Examples.antt =====
-- A session of the car pool search where a point is a number and so is a distance.
use cmoon.Base.{◌≡◌, refl, ℕ, ◌+◌, true, false, [], ◌∷◌, none, some, All, units}
use cmoon.Search.{start, finish, Search, Plan, Inputs, Poi, matched}
use cmoon.Search.Cards.{Found}
use cmoon.Search.Run.{Event, press_match, press_next, press_prev, answered, confirmed, run}
use cmoon.Search.Asked.{IsSound, run-Asks}
use cmoon.Search.Subscribing.{Form, checked_form, subscribe-reload_timers}
use cmoon.Member.{Page}
use cmoon.Member.Login
use mathlib.Core.List.{List}

abbrev blank : Plan ℕ
blank = record {
  saddr = [];
  eaddr = [];
  sll = none;
  ell = none;
  scityid = 0;
  ecityid = 0;
  placed = none;
  km = none;
  dad = 0;
  date = [];
  time = [];
  repeat = 0;
  sdate = [];
  stime = [];
  phone = [];
  contact = [];
  nick = [];
  attach = [];
  subscribe = 0;
}

abbrev inputs : Inputs
inputs = record {
  dad = 0;
  date = [];
  hour = [];
  min = [];
  repeat = 0;
  wdays = [];
  phone = [];
  contact = [];
  nick = [];
  attach = [];
  subscribes = [];
}

abbrev page : Search ℕ
page = record {
  plan = blank;
  inputs = inputs;
  saddr = [];
  eaddr = [];
  mplans = [];
  pnum = 0;
  pcur = 0;
  num_nav = (0, 0);
  card = record {
    nick = [];
    attach = [];
    saddr = [];
    eaddr = [];
    sdate = [];
    stime = [];
    plan_id = 0;
    from_href = [];
    from_title = [];
    from_img = none;
    phone_id = 0;
    contact_id = 0;
  };
  prev_shown = false;
  next_shown = false;
  nav_shown = false;
  result_shown = false;
  noresult_shown = false;
  focus = none;
  line = none;
  km_shown = none;
  at_submit = record { loading = false; success = false; error = false; notes = [] };
  at_leave = record { loading = false; success = false; error = false; notes = [] };
  requests = [];
}

abbrev place : ℕ → Poi ℕ
place n = record {
  province = [];
  city = [];
  district = [];
  street = [];
  street_number = [];
  business = [];
  point = some n;
}

abbrev planned : ℕ → ℕ → Found
planned n site = record {
  id = n;
  rect = units "1,2,3,4";
  nick = [];
  attach = [];
  saddr = [];
  eaddr = [];
  repeat = 0;
  sdate = [];
  stime = [];
  ori = site;
  ourl = [];
}

-- Both ends, a search, two plans, and the links between them.
abbrev session : List (Event ℕ)
session =
    confirmed start (place 3)
    ∷ confirmed finish (place 4)
    ∷ press_match
    ∷ answered (matched 2 (planned 1 0 ∷ planned 2 3 ∷ []))
    ∷ press_next
    ∷ press_prev
    ∷ []

run-Asks_example : All (IsSound ◌+◌) (run ◌+◌ [] [] session page).0.requests
run-Asks_example = run-Asks ◌+◌ [] [] session page tt

-- A guest, who then logs in.
abbrev guest : Page
guest = record {
  cookies = record { mname = none; mnick = none; mnick_esc = none; msn = none };
  nick_text = [];
  member_shown = false;
  guest_shown = true;
  login_mname = [];
  login_msn = [];
  is_overlaid = false;
  reloads = true;
  reload_timers = 0;
  alerts = 0;
  requests = [];
}

abbrev form : Form
form = record { page = guest; phone = []; infos = 0; is_hinted = false }

subscribe-reload_timers_example :
    ((checked_form true 1 form).page.is_overlaid ≡ true)
    × ((Login.run
          (λ s. s)
          (Login.asked true
            ∷ Login.accepted
                (record { mname = some []; mnick = some []; mnick_esc = some []; msn = some [] })
            ∷ [])
          (checked_form true 1 form).page).reload_timers
        ≡ 0)
subscribe-reload_timers_example =
    subscribe-reload_timers (λ s. s) true 1 form
      (Login.asked true
        ∷ Login.accepted
            (record { mname = some []; mnick = some []; mnick_esc = some []; msn = some [] })
        ∷ [])
      refl
