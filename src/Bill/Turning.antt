-- ===== src/Bill/Turning.antt =====
-- The table and the bar of the bills show the same page.
use mathlib.Core.List.{append-nil}
use cmoon.Base.{
  ℕ, ◌≡◌, refl, ap, sym, ◌∙◌, subst, ◌⊎◌, inl, inr, List, [], ◌∷◌, ◌++◌, none, some, map, length,
}
use cmoon.Paging.{called, Nav, current_page, show, visit, target}
use cmoon.Paging.Moves.{Move, move, OneAtMost, move-OneAtMost}
use cmoon.Bill.{
  drop, Request, Row, cells, Data, Bill, turn_page, rend_nav, on_bills, call_all, moved,
}

drop_all : {A : Type 0} (xs ys : List A) → drop (length xs) (xs ++ ys) ≡ ys
drop_all [] ys = refl
drop_all (x ∷ xs) ys = drop_all xs ys

drop_same : {A : Type 0} (xs : List A) → drop (length xs) xs ≡ []
drop_same xs = ap (drop (length xs)) (sym (append-nil xs)) ∙ drop_all xs []

-- The server has `ntt` bills in pages of `npp`, and `bills` are those of a page.
module _ (ntt npp : ℕ) (bills : ℕ → List Row) where
  abbrev pub page_data : ℕ → Data
  page_data p = record { ntt = ntt; npg = p; npp = npp; bills = bills p }

  abbrev pub answer_all : List Request → Bill → Bill
  unfolding on_bills
  answer_all [] b = b
  answer_all (r ∷ rs) b = answer_all rs (on_bills (some (page_data r.npg)) b)

  -- The bar comes to `v`; what it asks for is answered.
  abbrev pub followed : Nav → Bill → Bill
  unfolding call_all answer_all
  followed v b =
      let c = call_all (drop (length b.nav.gone) v.gone) (record b { nav = v }) in
      answer_all (drop (length b.requests) c.requests) c

  -- A move at the bar, and the answers to what it asks for.
  unfoldable pub turn : Move → Bill → Bill
  unfolding moved answer_all
  turn m b = let c = moved m b in answer_all (drop (length b.requests) c.requests) c

  unfoldable pub turns : List Move → Bill → Bill
  unfolding turn
  turns [] b = b
  turns (m ∷ ms) b = turns ms (turn m b)

  -- The table has the bills of the page that the bar shows, which is the page that was gone to last,
  -- if any was.
  abbrev pub IsInStep : Bill → Type 0
  IsInStep b = (b.table ≡ map cells (bills b.cpg)) × ((b.nav.cpg ≡ none) ⊎ (b.nav.cpg ≡ some b.cpg))

  rest-IsInStep :
      (b : Bill) (v : Nav)
      → (v.gone ≡ b.nav.gone) × (v.cpg ≡ b.nav.cpg)
      → IsInStep b
      → IsInStep (followed v b)
  unfolding followed call_all answer_all
  rest-IsInStep b v (e, g) (h, k) = rw (e, drop_same b.nav.gone, drop_same b.requests) (h, rw g k)

  visit-IsInStep : (b : Bill) (p : ℕ) → IsInStep (followed (visit [] p b.nav) b)
  unfolding followed call_all answer_all visit target turn_page on_bills rend_nav current_page show
  visit-IsInStep b p =
      rw
        (
          drop_all b.nav.gone (called p ∷ []),
          drop_all b.requests (record { tms = b.tms; tme = b.tme; npg = p } ∷ []),
        )
        (refl, inr refl)

  followed-IsInStep :
      (b : Bill) (v : Nav) → OneAtMost [] b.nav v → IsInStep b → IsInStep (followed v b)
  followed-IsInStep b v (inl e) h = rest-IsInStep b v e h
  followed-IsInStep b v (inr (p, e)) h =
      subst (λ w. IsInStep (followed w b)) (sym e) (visit-IsInStep b p)

  turn-IsInStep : (m : Move) (b : Bill) → IsInStep b → IsInStep (turn m b)
  unfolding turn moved followed
  turn-IsInStep m b h =
      followed-IsInStep b (move b.cpg b.tpg [] m b.nav) (move-OneAtMost b.cpg b.tpg [] m b.nav) h

  -- From a table and a bar of the same page, with a server whose bills and their number stay as they
  -- are: whatever is entered and clicked at the bar, and each request answered before the next move,
  -- the table has the bills of the page that the bar shows.
  pub turns-IsInStep : (ms : List Move) (b : Bill) → IsInStep b → IsInStep (turns ms b)
  unfolding turns
  turns-IsInStep [] b h = h
  turns-IsInStep (m ∷ ms) b h = turns-IsInStep ms (turn m b) (turn-IsInStep m b h)
