-- ===== src/Spider/Examples.antt =====
-- Two links of a list of 58, and a page of it.
use cmoon.Base.{◌≡◌, refl, true, false, List, [], ◌∷◌, none, some, Text, units, map}
use cmoon.Spider.{matches, group, matched, numbered, site_edeng, node, nothing, onready}
use cmoon.Spider.Listing.{parse_list, on_told, note_all, put_url}
use cmoon.Spider.Listing.Opening.{pages_of, on_told-node}
use cmoon.Spider.Plans.{parse_node_58, parse_node_ganji, first_outside}
use cmoon.Spider.Plans.Reading.{Page58, IsReadable, found_on, plan_on, parse_node_58-page}

abbrev two_links : List Text
unfolding units
two_links =
    units "http://bj.58.com/pinche/71x.shtml"
    ∷ units "http://bj.58.com/about"
    ∷ units "http://bj.58.com/pinche/72x.shtml"
    ∷ []

on_told-node_example :
    pages_of (numbered (units "/pinche") (units "x.shtml") (units "58.com/pinche/")) (
      on_told
        (parse_list
          (numbered (units "/pinche") (units "x.shtml") (units "58.com/pinche/"))
          two_links).urls
        (true, some (units "72" ∷ [])))
    ≡ map node (units "72" ∷ [])
unfolding two_links units parse_list note_all matched group put_url
on_told-node_example =
    on_told-node (units "/pinche") (units "x.shtml") (units "58.com/pinche/") refl two_links
      (units "72" ∷ []) refl

-- A link of edeng whose id is not made of figures is opened, but its page is read as nothing.
edeng_nothing : onready site_edeng (units "http://www.edeng.cn/jiedaoxinxi/a1.html") ≡ nothing
unfolding onready units matched group matches site_edeng
edeng_nothing = refl

abbrev page_58 : Page58
unfolding units
page_58 = record {
  from = units "a";
  to = units "b";
  has_car = true;
  via = [];
  day = units "2011-12-01";
  hour = units "08:30";
  kind = units "x";
  details = [];
  is_weekly = false;
}

page_58-IsReadable : IsReadable (λ s. s) page_58
unfolding units page_58
page_58-IsReadable = record {
  from_part = refl;
  to_part = refl;
  day_part = refl;
  day_mark = refl;
  hour_part = refl;
  hour_full = refl;
  kind_part = refl;
  kind_is = refl;
  from_trim = refl;
  to_trim = refl;
  via_trim = refl;
  time_trim = refl;
  kind_trim = refl;
}

parse_node_58-page_example : parse_node_58 (λ s. s) (found_on page_58) ≡ plan_on page_58
parse_node_58-page_example = parse_node_58-page (λ s. s) page_58 page_58-IsReadable

-- A finish of nothing but figures raises an exception.
figures_only :
    parse_node_ganji
      (λ s. s)
      (record { heading = units "a→12"; is_owner = true; via = none; day = none })
    ≡ none
unfolding parse_node_ganji first_outside units
figures_only = refl
