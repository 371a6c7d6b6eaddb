-- ===== src/Bill/Examples.antt =====
-- A server with three bills, one in a page.
use cmoon.Base.{
  ℕ, ◌≡◌, refl, false, [], ◌∷◌, List, none, some, inl, map, units, decimal, digits_from,
}
use cmoon.Paging.{last, current_page}
use cmoon.Paging.Moves.{entered, clicked}
use cmoon.Bill.{Row, Bill, cells, submitted, on_bills, rend_nav}
use cmoon.Bill.Turning.{page_data, turns, IsInStep, turns-IsInStep}

abbrev bills : ℕ → List Row
unfolding decimal digits_from
bills p = record { intime = []; btype = 1; fee = decimal p; remark = [] } ∷ []

abbrev first_page : Bill
unfolding cells
first_page = record {
  tms = [];
  tme = [];
  table = map cells (bills 1);
  nav = record { cpg = none; inp = []; is_invalid = false; gone = [] };
  cpg = 1;
  tpg = some 3;
  requests = [];
  alerts = 0;
}

turns-IsInStep_example :
    IsInStep 3 1 bills (turns 3 1 bills (clicked last ∷ entered (units "2") ∷ []) first_page)
unfolding first_page
turns-IsInStep_example =
    turns-IsInStep 3 1 bills (clicked last ∷ entered (units "2") ∷ []) first_page (refl, inl refl)

-- The bar keeps the page that was gone to when the button asks for the first page anew.
abbrev on_second : Bill
unfolding first_page
on_second = record first_page {
  nav = record { cpg = some 2; inp = []; is_invalid = false; gone = [] };
  cpg = 2;
}

still_second : (on_bills (some (page_data 3 1 bills 1)) (submitted on_second)).cpg ≡ 2
unfolding on_bills submitted rend_nav current_page on_second
still_second = refl
