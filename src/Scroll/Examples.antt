-- ===== src/Scroll/Examples.antt =====
-- A list that loads one page at its top.
use cmoon.Base.{ℕ, ◌+◌, ◌≤◌, ◌≡◌, refl, true, [], ◌∷◌, some, arith}
use cmoon.Scroll.{Opts, Measures, mnscrollpage, scrolled, run}
use cmoon.Scroll.Loading.{Loads, run-Loads}

abbrev one_page : Opts
one_page = record { is_top = true; scpage = some 1; ppage = 0 }

abbrev at_top : Measures
at_top = record { th = 0; dh = 90; ch = 30 }

run-Loads_example :
    (k : ℕ) × ((k + 0 ≤ 2)
      × Loads k
          (mnscrollpage one_page 1)
          (run one_page ((0, at_top) ∷ []) (mnscrollpage one_page 1)))
run-Loads_example = run-Loads one_page 1 refl ((0, at_top) ∷ []) (omega arith)

-- The page behind the last one is loaded as well.
page_too_many :
    (run one_page ((0, at_top) ∷ (0, at_top) ∷ (0, at_top) ∷ []) (mnscrollpage one_page 1)).calls
    ≡ 1 ∷ 2 ∷ []
unfolding run scrolled mnscrollpage
page_too_many = refl

-- Two elements go on from each other's pages.
one_counter :
    (run one_page ((0, at_top) ∷ (1, at_top) ∷ []) (mnscrollpage one_page 2)).calls ≡ 1 ∷ 2 ∷ []
unfolding run scrolled mnscrollpage
one_counter = refl
