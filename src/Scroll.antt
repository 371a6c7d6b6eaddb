-- ===== src/Scroll.antt =====
-- Pages that are loaded by scrolling, lib/js/jquery.mnscrollpage.js. `ppage` is not declared there,
-- so that all elements share it; the text of the handler is the same for each.
pub mod Loading
mod Examples
use cmoon.Base.{
  ℕ, zero, suc, ◌+◌, Bool, true, false, List, [], ◌∷◌, ◌++◌, Option, none, some, ◌==◌,
  if◌then◌else◌,
}

-- `scpage` is `none` for ever.
pub record Opts : Type 0 where
  pub is_top : Bool
  pub scpage : Option ℕ
  pub ppage : ℕ

-- `scrollTop`, `th`, with the height of the contents and of what is seen of them, `dh` and `ch`.
pub record Measures : Type 0 where
  pub th : ℕ
  pub dh : ℕ
  pub ch : ℕ

-- Which elements still have their handler, and the pages that the callback was called with.
pub record Scroller : Type 0 where
  pub page : ℕ
  pub bound : List Bool
  pub calls : List ℕ

abbrev pub all_bound : ℕ → List Bool
all_bound zero = []
all_bound (suc n) = true ∷ all_bound n

-- `mnscrollpage` on a number of elements.
unfoldable pub mnscrollpage : Opts → ℕ → Scroller
mnscrollpage o n = record { page = o.ppage; bound = all_bound n; calls = [] }

abbrev pub is_bound : ℕ → List Bool → Bool
is_bound i [] = false
is_bound zero (b ∷ bs) = b
is_bound (suc i) (b ∷ bs) = is_bound i bs

abbrev pub unbind : ℕ → List Bool → List Bool
unbind i [] = []
unbind zero (b ∷ bs) = false ∷ bs
unbind (suc i) (b ∷ bs) = b ∷ unbind i bs

abbrev pub is_reached : Option ℕ → ℕ → Bool
is_reached none p = false
is_reached (some n) p = p == n

-- `dh - th - ch == 0`
abbrev pub is_at : Bool → Measures → Bool
is_at t x = if t then x.th == 0 else x.dh == x.th + x.ch

abbrev pub stop : Opts → ℕ → Scroller → Scroller
stop o i s = if is_reached o.scpage s.page then record s { bound = unbind i s.bound } else s

abbrev pub load : Opts → Measures → Scroller → Scroller
load o x s =
    if is_at o.is_top x
    then record s { page = suc s.page; calls = s.calls ++ suc s.page ∷ [] }
    else s

-- An element is scrolled.
unfoldable pub scrolled : Opts → ℕ × Measures → Scroller → Scroller
scrolled o (i, x) s = if is_bound i s.bound then load o x (stop o i s) else s

unfoldable pub run : Opts → List (ℕ × Measures) → Scroller → Scroller
unfolding scrolled
run o [] s = s
run o (e ∷ es) s = run o es (scrolled o e s)
