-- ===== src/Kol/Examples.antt =====
-- The start of the chat where jQuery comes with the first timer.
use cmoon.Base.{◌≤◌, refl, true, false, [], ◌∷◌, none, some, units}
use cmoon.Kol.{Env, chat_script, client_start, Kol, Opts}
use cmoon.Kol.Scripts.{timer, called, run, run-loads, loads}

abbrev bare : Env
bare = record {
  jquery = none;
  has_cookie = false;
  has_body = true;
  has_live_cs = false;
  is_utf = true;
}

abbrev ready : Env
ready = record bare { jquery = some (units "1.7.1"); has_cookie = true }

abbrev page : Kol
page = record { inited = false; aname = []; etime = 0; waits = []; log = [] }

abbrev options : Opts
options = record { stat_only = false; aname = b'a' ∷ [] }

run-loads_example :
    loads
      (run (called (some options) bare ∷ timer 0 ready ∷ called (some options) ready ∷ []) page).log
    ≤ 1
run-loads_example =
    run-loads (called (some options) bare ∷ timer 0 ready ∷ called (some options) ready ∷ []) page
      refl refl refl

abbrev waiting : Kol
waiting = record page { etime = 2; waits = chat_script ∷ client_start ∷ [] }
