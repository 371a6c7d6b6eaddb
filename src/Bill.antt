-- ===== src/Bill.antt =====
-- The bills of the operators, pop/fly/js/oms/bill.js, over the bar of lib/js/jquery.mnnav.js. A bill
-- is what the server gives; its table is the list of the rows.
pub mod Turning
mod Examples
use cmoon.Base.{
  ℕ, zero, suc, ◌+◌, List, [], ◌∷◌, ◌++◌, Option, none, some, map, length, ◌==◌, if◌then◌else◌,
  Text, units,
}
use cmoon.Paging.{Target, called, located, Nav, Options, total_pages, current_page, show}
use cmoon.Paging.Moves.{Move, move}

-- The text in the column of the type.
unfoldable pub type_name : ℕ → Text
unfolding units
type_name b =
    if b == 0
    then units "申请充值"
    else if b == 1
    then units "确认充值"
    else if b == 2
    then units "添加客服帐号"
    else if b == 3
    then units "操作回滚"
    else units "未知操作"

abbrev pub drop {ℓ} : {A : Type ℓ} → ℕ → List A → List A
drop zero xs = xs
drop (suc n) [] = []
drop (suc n) (x ∷ xs) = drop n xs

-- What is asked of `/json/oms/bill`.
pub record Request : Type 0 where
  pub tms : Text
  pub tme : Text
  pub npg : ℕ

-- A bill of an answer.
pub record Row : Type 0 where
  pub intime : Text
  pub btype : ℕ
  pub fee : Text
  pub remark : Text

-- The cells that `mntable` makes of a row, in the order of the heads.
abbrev pub cells : Row → List Text
unfolding type_name
cells r = r.intime ∷ type_name r.btype ∷ r.fee ∷ r.remark ∷ []

-- The data of an answer that is a success, its numbers past `parseInt`.
pub record Data : Type 0 where
  pub ntt : ℕ
  pub npg : ℕ
  pub npp : ℕ
  pub bills : List Row

-- The fields of the times, the table, the bar with the page and the number of pages that it is made
-- with, what was asked for, and the alerts.
pub record Bill : Type 0 where
  pub tms : Text
  pub tme : Text
  pub table : List (List Text)
  pub nav : Nav
  pub cpg : ℕ
  pub tpg : Option ℕ
  pub requests : List Request
  pub alerts : ℕ

-- `turnPage`
unfoldable pub turn_page : ℕ → Bill → Bill
turn_page pn b = record b {
  requests = b.requests ++ record { tms = b.tms; tme = b.tme; npg = pn } ∷ [];
}

abbrev pub options_of : Data → Options
options_of d = record { npp = d.npp; npg = d.npg; ntt = d.ntt; url = [] }

-- `mnnav` of an answer: the bar is made anew.
unfoldable pub rend_nav : Options → Bill → Bill
unfolding current_page total_pages show
rend_nav o b = record b { nav = show o b.nav; cpg = current_page o b.nav; tpg = total_pages o }

-- The callback of `turnPage`.
unfoldable pub on_bills : Option Data → Bill → Bill
unfolding rend_nav
on_bills none b = record b { alerts = suc b.alerts }
on_bills (some d) b = rend_nav (options_of d) (record b { table = map cells d.bills })

-- The bar calls `turnPage` for each page that it goes to.
abbrev pub call_all : List Target → Bill → Bill
unfolding turn_page
call_all [] b = b
call_all (called pn ∷ ts) b = call_all ts (turn_page pn b)
call_all (located u ∷ ts) b = call_all ts b

unfoldable pub moved : Move → Bill → Bill
unfolding move
moved m b =
    let v = move b.cpg b.tpg [] m b.nav in
    call_all (drop (length b.nav.gone) v.gone) (record b { nav = v })

-- The button.
unfoldable pub submitted : Bill → Bill
unfolding turn_page
submitted b = turn_page 1 b
