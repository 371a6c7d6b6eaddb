-- ===== src/Spider.antt =====
-- The scripts that read the car pools of other sites, dida/fly/js/admin/spd/58.js, ganji.js, edeng.js
-- and liebiao.js: which links of a list are asked for, which pages are opened, and what a page is
-- read as. An address is a text without line ends.
pub mod Listing
pub mod Plans
mod Examples
use cmoon.Base.{
  ℕ, Bool, true, false, ◌||◌, ◌&&◌, List, [], ◌∷◌, ◌++◌, Option, none, some, map, String, ◌==◌, leb,
  if◌then◌else◌, Text, text_eq, units,
}
use cmoon.Fields.{is_digit}

-- What follows the units of an expression at the beginning of a text; `.` is any unit.
abbrev pub after_prefix : Text → Text → Option Text
after_prefix [] s = some s
after_prefix (c ∷ p) [] = none
after_prefix (c ∷ p) (d ∷ s) = if (c == b'.') || (c == d) then after_prefix p s else none

abbrev pub is_some : {A : Type 0} → Option A → Bool
is_some none = false
is_some (some a) = true

-- `hay.match(needle)` as a test.
unfoldable pub matches : Text → Text → Bool
matches p [] = is_some (after_prefix p [])
matches p (c ∷ s) = is_some (after_prefix p (c ∷ s)) || matches p s

-- `/.*lead(class+)tail$/`, or with `*` where `may_be_empty`.
pub record Pattern : Type 0 where
  pub lead : Text
  pub is_inner : ℕ → Bool
  pub may_be_empty : Bool
  pub tail : Text

abbrev pub led : ℕ → Option Text → Option Text
led c none = none
led c (some i) = some (c ∷ i)

-- What is before the tail of a text, of units of the class.
unfoldable pub group : (ℕ → Bool) → Text → Text → Option Text
group p t [] = if text_eq [] t then some [] else none
group p t (c ∷ s) =
    let rest = group p t s in
    if text_eq (c ∷ s) t then some [] else (if p c then led c rest else none)

abbrev pub not_empty : Bool → Option Text → Option Text
not_empty e none = none
not_empty e (some []) = if e then some [] else none
not_empty e (some (c ∷ i)) = some (c ∷ i)

abbrev pub capture : Pattern → Text → Option Text
unfolding group
capture r s = not_empty r.may_be_empty (group r.is_inner r.tail s)

abbrev pub captured : Pattern → Option Text → Option Text
captured r none = none
captured r (some s) = capture r s

abbrev pub or_else : Option Text → Option Text → Option Text
or_else none o = o
or_else (some i) o = some i

-- `s.match(pattern)[1]`: the lead is looked for from the end, as `.*` takes what it can.
unfoldable pub matched : Pattern → Text → Option Text
matched r [] = captured r (after_prefix r.lead [])
matched r (c ∷ s) = or_else (matched r s) (captured r (after_prefix r.lead (c ∷ s)))

-- What the scripts differ in: the links of a list, the addresses of a node and of a list, and what is
-- put before an id and before a link.
pub record Site : Type 0 where
  pub link : Pattern
  pub node_address : Pattern
  pub list_address : Text
  pub area : Text
  pub base : Text

-- 58 and liebiao, whose links and nodes have a number as their id.
abbrev pub numbered : Text → Text → Text → Site
numbered folder tail list = record {
  link = record {
    lead = folder ++ b'/' ∷ [];
    is_inner = is_digit;
    may_be_empty = false;
    tail = tail;
  };
  node_address = record {
    lead = b'/' ∷ [];
    is_inner = is_digit;
    may_be_empty = false;
    tail = tail;
  };
  list_address = list;
  area = [];
  base = [];
}

abbrev pub site_58 : Site
unfolding units
site_58 = numbered (units "/pinche") (units "x.shtml") (units "58.com/pinche/")

abbrev pub site_liebiao : Site
unfolding units
site_liebiao = numbered (units "liebiao.com/pinche") (units ".html") (units "liebiao.com/pinche/")

-- `[0-9|_]` and `.`
abbrev pub is_node_unit : ℕ → Bool
is_node_unit c = is_digit c || ((c == b'|') || (c == b'_'))

abbrev pub is_any : ℕ → Bool
is_any c = true

abbrev pub site_edeng : Site
unfolding units
site_edeng = record {
  link = record {
    lead = units "/jiedaoxinxi/";
    is_inner = is_any;
    may_be_empty = true;
    tail = units ".html";
  };
  node_address = record {
    lead = units "/";
    is_inner = is_node_unit;
    may_be_empty = false;
    tail = units ".html";
  };
  list_address = units "edeng.cn/13/pinche/";
  area = [];
  base = [];
}

abbrev pub site_ganji : Text → Site
unfolding units
site_ganji area = record {
  link = record {
    lead = units "/pincheshangxiaban/";
    is_inner = is_any;
    may_be_empty = true;
    tail = units ".htm";
  };
  node_address = record {
    lead = units "/";
    is_inner = is_node_unit;
    may_be_empty = false;
    tail = units ".htm";
  };
  list_address = units "ganji.com/pincheshangxiaban/";
  area = area;
  base = units "http://" ++ area ++ units ".ganji.com";
}

-- `/http:\/\/(.*).ganji.*/`: the area is what is before the last unit and `ganji`.
abbrev pub before_ganji : Text → Option Text
unfolding units
before_ganji [] = none
before_ganji (c ∷ s) = elim (before_ganji s) [
  | some a ↦ some (c ∷ a)
  | none ↦ if is_some (after_prefix (units ".ganji") (c ∷ s)) then some [] else none
]

abbrev pub area_after : Option Text → Option Text
area_after none = none
area_after (some s) = before_ganji s

unfoldable pub area_of : Text → Option Text
unfolding units
area_of [] = none
area_of (c ∷ s) = or_else (area_after (after_prefix (units "http://") (c ∷ s))) (area_of s)

abbrev pub in_area : Text → Option Text → Option Text
in_area a none = none
in_area a (some i) = some (a ++ i)

-- What `onready` does with the address of a page.
pub data Reading : Type 0 where
  node : Text → Reading
  listing : Reading
  nothing : Reading

abbrev pub reading_of : Bool → Option Text → Reading
reading_of is_list (some i) = node i
reading_of is_list none = if is_list then listing else nothing

unfoldable pub onready : Site → Text → Reading
unfolding matched matches
onready w u = reading_of (matches w.list_address u) (in_area w.area (matched w.node_address u))

-- `onready` of ganji.js, with `none` for the exception where the address has no area.
unfoldable pub onready_ganji : Text → Option Reading
unfolding area_of
onready_ganji u = elim (area_of u) [ none ↦ none | some a ↦ some (onready (site_ganji a) u) ]
