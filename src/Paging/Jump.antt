-- ===== src/Paging/Jump.antt =====
-- The older navigation bar, lib/js/jquery.mnpagenav.js. Numbers stay below 2 ^ 53, and the pages
-- that are shown count from 1.
use cmoon.Base.{
  ℕ, ◌+◌, ◌-◌, ◌/◌, Bool, true, false, not, ◌&&◌, ◌||◌, List, [], ◌∷◌, ◌++◌, Option, none, some,
  ltb, ◌==◌, if◌then◌else◌, Text, units, decimal,
}
use cmoon.Fields.{is_digit}
use cmoon.Fields.Matching.{Regex, set, plus, test}
use cmoon.Paging.{has_query}
use cmoon.Paging.Numerals.{Parsed, nan, minus, parse_int}

-- The callback gets a number from the links and the text of the field from the jump.
pub data Going : Type 0 where
  number : ℕ → Going
  typed : Text → Going
  located : Text → Going

-- `document.pagenav_pg`, which holds a number or a text; the classes of `#pagenav_goto`.
pub data Held : Type 0 where
  unset : Held
  at_number : ℕ → Held
  at_text : Text → Held

pub record Nav : Type 0 where
  pub held : Held
  pub valid : Bool
  pub invalid : Bool
  pub gone : List Going

-- `assemUrl`
unfoldable pub assem_url : Text → Text → Text
assem_url url page = url ++ ((if has_query url then units "&pg=" else units "?pg=") ++ page)

-- `pagePrev` and `pageNext`: the link of a page.
unfoldable pub follow : Text → ℕ → Nav → Nav
unfolding assem_url
follow [] pg v = record v { held = at_number pg; gone = v.gone ++ number pg ∷ [] }
follow (u ∷ us) pg v = record v { gone = v.gone ++ located (assem_url (u ∷ us) (decimal pg)) ∷ [] }

-- The links of `mnpagenav`, for the page that is shown and the number of pages.
unfoldable pub prev_page : ℕ → Option ℕ
prev_page currpage = if currpage == 1 then none else some (currpage - 1)

unfoldable pub next_page : ℕ → ℕ → Option ℕ
next_page currpage totalpage =
    if not (currpage == totalpage) && not (totalpage == 0) then some (currpage + 1) else none

-- `totalpage`, for a number of items per page that is not 0.
unfoldable pub total_page : ℕ → ℕ → ℕ
total_page ttnum numperpage = (ttnum + numperpage - 1) / numperpage

-- `/^[0-9]+$/`
unfoldable pub digits_pattern : Regex
digits_pattern = plus (set is_digit)

-- `pg < 1 || pg > totalpage`
unfoldable pub is_outside : Parsed → ℕ → Bool
is_outside nan totalpage = false
is_outside (minus n) totalpage = true
is_outside (Parsed.plus n) totalpage = (n == 0) || ltb totalpage n

-- The classes that the code takes away are `valie` and `invalie`, which are never there.
unfoldable pub mark_invalid : Nav → Nav
mark_invalid v = record v { invalid = true }

unfoldable pub mark_valid : Nav → Nav
mark_valid v = record v { valid = true }

unfoldable pub visit_typed : Text → Text → Nav → Nav
unfolding assem_url
visit_typed [] pg v = record v { held = at_text pg; gone = v.gone ++ typed pg ∷ [] }
visit_typed (u ∷ us) pg v = record v { gone = v.gone ++ located (assem_url (u ∷ us) pg) ∷ [] }

-- The click of `pageJump`, with the text of `#pagenav_goto`.
unfoldable pub jump : Text → ℕ → Text → Nav → Nav
unfolding mark_invalid mark_valid visit_typed
jump url totalpage pg v =
    if not (test digits_pattern pg)
    then mark_invalid v
    else if is_outside (parse_int pg) totalpage
    then mark_invalid v
    else visit_typed url pg (mark_valid v)

-- `parseInt(document.pagenav_pg)`, or the page of the options.
unfoldable pub current_page : ℕ → Held → Parsed
current_page pg unset = Parsed.plus pg
current_page pg (at_number n) = Parsed.plus n
current_page pg (at_text s) = parse_int s
