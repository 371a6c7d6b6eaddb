-- ===== src/Oms/Examples.antt =====
-- An IE 6 whose reader puts the hint off.
use cmoon.Base.{refl, false, [], ◌∷◌}
use cmoon.Oms.{Oms}
use cmoon.Oms.Hint.{ready, put_off, run, IsDue, run-IsDue}

abbrev blank : Oms
blank = record {
  hint_shown = false;
  is_ignored = false;
  indicator_shown = false;
  needa_shown = false;
  camers = [];
  clients = 0;
  edits = 0;
  removals = [];
  alerts = 0;
}

run-IsDue_example : IsDue 6 (run 6 (ready ∷ put_off ∷ ready ∷ []) blank)
run-IsDue_example = run-IsDue 6 (ready ∷ put_off ∷ ready ∷ []) blank refl
