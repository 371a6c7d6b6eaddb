-- ===== src/Box/Examples.antt =====
-- The visitor's box at concrete options and events.
use cmoon.Base.{◌≡◌, refl, true, false, [], ◌∷◌, none, some, Text}
use cmoon.Box.{
  Options, max, mid, click, init_ui, ui_at, ui_run, maxer_clicked, mider_clicked, miner_clicked,
  min_clicked,
}
use cmoon.Box.Parts.{IsCoherent, box-IsCoherent}
use cmoon.Box.Kept.{init_ui-ui_run}
use cmoon.Box.Talk.{Talk}

abbrev bar : Options
bar = record {
  minable = true;
  hidemid_on_max = false;
  maxevent = click;
  restore_ui = true;
  default_ui = some "mid";
}

abbrev fixed : Options
fixed = record bar { minable = false }

bar_starts : (init_ui bar none).rendo ≡ mid
unfolding init_ui ui_at
bar_starts = refl

box-IsCoherent_example :
    IsCoherent (ui_run (maxer_clicked ∷ miner_clicked ∷ min_clicked ∷ []) (init_ui bar none))
box-IsCoherent_example =
    box-IsCoherent bar none (maxer_clicked ∷ miner_clicked ∷ min_clicked ∷ []) refl

-- Its messages are shown, since they were when it was minimised.
box_ends :
    (ui_run (maxer_clicked ∷ miner_clicked ∷ min_clicked ∷ []) (init_ui bar none)).max_shown ≡ true
unfolding ui_run init_ui ui_at
box_ends = refl

init_ui-ui_run_example :
    let u = ui_run (maxer_clicked ∷ mider_clicked ∷ []) (init_ui bar none) in
    let v = init_ui bar u.cookie in
    (v.max_shown ≡ u.max_shown) × (v.mid_shown ≡ u.mid_shown) × (v.min_shown ≡ u.min_shown)
init_ui-ui_run_example = init_ui-ui_run bar none (maxer_clicked ∷ mider_clicked ∷ []) refl refl

abbrev visitor : Text → Talk
visitor s = record {
  ui = ui_at bar none max;
  uname = "ab_CDEFG";
  pname = "shop";
  aname = none;
  admin = none;
  current_pipe = none;
  input = s;
  hint = [];
  restores = [];
  recently = [];
  data_box = [];
  sound_on = true;
  is_msie = false;
  reminder_src = [];
  plays = 0;
  requests = [];
}
