-- ===== src/Query/Examples.antt =====
-- Values of concrete addresses.
use cmoon.Base.{◌≡◌, refl, [], ◌∷◌, some, none, units}
use cmoon.Chat.Uri.{decode_uri}
use cmoon.Query.{Name, get_query_string, find_value}
use cmoon.Query.Address.{address, value_or_nothing, value_of}
use cmoon.Query.Lookup.{get_query_string-address}

abbrev upper : Name
unfolding units
upper = record { text = units "To"; plain = refl }

abbrev lower_case : Name
unfolding units
lower_case = record { text = units "to"; plain = refl }

get_query_string-address_example :
    get_query_string upper
      (address (units "http://a.b/c") (units "from", units "1") ((units "to", units "2") ∷ []))
    ≡ some (
        value_or_nothing
          (value_of upper.text ((units "from", units "1") ∷ (units "to", units "2") ∷ [])))
unfolding units
get_query_string-address_example =
    get_query_string-address upper (units "http://a.b/c") (units "from", units "1")
      ((units "to", units "2") ∷ []) refl refl

two : get_query_string lower_case (units "/c?from=1&TO=a+b&to=3") ≡ some (units "a b")
unfolding get_query_string find_value units decode_uri lower_case
two = refl

-- The address of a page has its fragment, which stays with the last value.
with_fragment : get_query_string lower_case (units "/c?from=1&to=2#top") ≡ some (units "2#top")
unfolding get_query_string find_value units decode_uri lower_case
with_fragment = refl

refused : get_query_string lower_case (units "/c?to=%") ≡ none
unfolding get_query_string find_value units decode_uri lower_case
refused = refl
