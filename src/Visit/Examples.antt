-- ===== src/Visit/Examples.antt =====
-- A visit and a visitor's cookies at concrete events.
use cmoon.Base.{refl, true, false, [], ◌∷◌, none, some, units, arith}
use cmoon.Box.{Options, click, ui_at, max, maxer_clicked}
use cmoon.Box.Talk.{hint_of}
use cmoon.Visit.{Visit, Pipe, User}
use cmoon.Visit.Run.{piped, joined, typed, sent, moved, run}
use cmoon.Visit.Presence.{Shows, run-Shows}

abbrev bar : Options
bar = record {
  minable = true;
  hidemid_on_max = false;
  maxevent = click;
  restore_ui = true;
  default_ui = some "mid";
}

abbrev page : Visit
page = record {
  talk = record {
    ui = ui_at bar none max;
    uname = "ab_CDEFG";
    pname = "shop";
    aname = none;
    admin = none;
    current_pipe = none;
    input = [];
    hint = hint_of none;
    restores = [];
    recently = [];
    data_box = [];
    sound_on = true;
    is_msie = false;
    reminder_src = [];
    plays = 0;
    requests = [];
  };
  is_restored = false;
  restores_msg = false;
  session = none;
}

abbrev site : Pipe
site = record { pname = some "shop"; aname = "ann" }

abbrev operator : User
operator = record { pubid = "p1"; isadmin = true }

run-Shows_example :
    Shows some "shop"
      (some (record { aname = "ann"; pubid = "p1" }))
      (run some
        (piped site
          ∷ joined operator site
          ∷ typed (units "hi")
          ∷ sent []
          ∷ moved maxer_clicked
          ∷ [])
        page).talk
unfolding units
run-Shows_example =
    run-Shows some "shop" none
      (piped site ∷ joined operator site ∷ typed (units "hi") ∷ sent [] ∷ moved maxer_clicked ∷ [])
      page (tt, (tt, (omega arith, (tt, (tt, tt)))))
      (record {
        same_site = refl;
        shown_admin = refl;
        shown_pipe = refl;
        shown_hint = refl;
        no_restores = refl;
        short = omega arith;
      })
