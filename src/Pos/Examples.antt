-- ===== src/Pos/Examples.antt =====
-- Three cities, of which two are asked for.
use cmoon.Base.{ℕ, ◌≡◌, false, [], ◌∷◌, some, arith}
use cmoon.Pos.{City, ticks, ready}
use cmoon.Pos.Asking.{at, ticks-ready}

abbrev city : ℕ → City
city i = record { s = []; id = i }

ticks-ready_example :
    ticks 5 (city 1 ∷ city 2 ∷ city 3 ∷ []) ready ≡ some (at (city 1 ∷ city 2 ∷ []) false)
ticks-ready_example = ticks-ready (city 1 ∷ city 2 ∷ []) (city 3) 5 (omega arith)
