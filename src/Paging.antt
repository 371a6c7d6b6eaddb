-- ===== src/Paging.antt =====
-- The bar that leads from page to page, lib/js/jquery.mnnav.js. Numbers stay below 2 ^ 53, the page
-- has one bar, so that `#_nav-inp` is the field of the bar, and the numbers given are numbers. With
-- a location to go to the window unloads the page, which ends the moves there.
pub mod Numerals
pub mod Moves
pub mod Jump
pub mod Marks
mod Examples
use cmoon.Base.{
  ℕ, zero, suc, ◌+◌, ◌-◌, ◌/◌, Bool, true, false, ◌&&◌, ◌||◌, List, [], ◌∷◌, ◌++◌, Option, none,
  some, ltb, ◌==◌, if◌then◌else◌, Text, units, decimal,
}
use cmoon.Paging.Numerals.{Parsed, parse_int, nan, minus, plus}

-- Where a bar leads: the callback is called with a page, or the window goes to a location.
pub data Target : Type 0 where
  called : ℕ → Target
  located : Text → Target

-- `document._cpg`, if it is set, the field of the bar, and what was gone to.
pub record Nav : Type 0 where
  pub cpg : Option ℕ
  pub inp : Text
  pub is_invalid : Bool
  pub gone : List Target

-- What `mnnav` is given, its three numbers past `parseInt`.
pub record Options : Type 0 where
  pub npp : ℕ
  pub npg : ℕ
  pub ntt : ℕ
  pub url : Text

-- `tpg`; `none` is NaN.
unfoldable pub total_pages : Options → Option ℕ
total_pages o = if o.npp == 0 then none else some ((o.ntt + o.npp - 1) / o.npp)

-- The `cpg` of `mnnav`.
unfoldable pub current_page : Options → Nav → ℕ
current_page o v = elim v.cpg [ none ↦ o.npg | some k ↦ k ]

-- `pn > tpg`, and `cpg < tpg`
unfoldable pub is_beyond : ℕ → Option ℕ → Bool
is_beyond pn none = false
is_beyond pn (some t) = ltb t pn

unfoldable pub is_before : ℕ → Option ℕ → Bool
is_before c none = false
is_before c (some t) = ltb c t

-- `/\?/`
unfoldable pub has_query : Text → Bool
has_query [] = false
has_query (u ∷ us) = (u == 63) || has_query us

unfoldable pub page_url : Text → ℕ → Text
page_url url pn = url ++ ((if has_query url then units "&_npg=" else units "?_npg=") ++ decimal pn)

unfoldable pub target : Text → ℕ → Target
target [] pn = called pn
target (u ∷ us) pn = located (page_url (u ∷ us) pn)

unfoldable pub refuse : Nav → Nav
refuse v = record v { is_invalid = true }

unfoldable pub visit : Text → ℕ → Nav → Nav
visit url pn v = record v {
  cpg = some pn;
  inp = decimal pn;
  is_invalid = false;
  gone = v.gone ++ target url pn ∷ [];
}

-- `gotoPage` behind its `parseInt`
unfoldable pub goto_number : Parsed → Option ℕ → Text → Nav → Nav
goto_number nan tpg url v = refuse v
goto_number (minus n) tpg url v = refuse v
goto_number (plus n) tpg url v = if (n == 0) || is_beyond n tpg then refuse v else visit url n v

-- `gotoPage`, from the text of the field or of a link's `rel`
unfoldable pub goto_page : Text → Option ℕ → Text → Nav → Nav
goto_page pn tpg url v = goto_number (parse_int pn) tpg url v

-- `mnnav`: the bar is made anew, with an empty list of classes.
unfoldable pub show : Options → Nav → Nav
show o v = record v { inp = decimal (current_page o v); is_invalid = false }

-- A link's `rel` as markup prints the number.
unfoldable pub rel_of : Option ℕ → Text
rel_of none = units "NaN"
rel_of (some n) = decimal n

-- What the links of `navCenter` and `navRight` lead to, for the `cpg` and `tpg` they are made with.
pub data Link : Type 0 where
  first : Link
  last : Link
  prev : Link
  next : Link

unfoldable pub link_rel : ℕ → Option ℕ → Link → Option Text
link_rel c t first = some (decimal 1)
link_rel c t last = some (rel_of t)
link_rel c t prev = if ltb 1 c then some (decimal (c - 1)) else none
link_rel c t next = if is_before c t then some (decimal (c + 1)) else none

unfoldable pub click : ℕ → Option ℕ → Text → Link → Nav → Nav
click c t url l v = elim (link_rel c t l) [ none ↦ v | some rel ↦ goto_page rel t url v ]
