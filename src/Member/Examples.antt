-- ===== src/Member/Examples.antt =====
-- The components of a place.
use cmoon.Base.{Option, none, some, Text, ltb, refl, ℕ, ◌≡◌, [], ◌∷◌}
use cmoon.Member.{Component, geo_loop, is_other}
use cmoon.Member.Cities.{geo_loop_ends}
use cmoon.Member.Points.{dbbox2ll}
use cmoon.Member.Points.Reading.{rect_text, dbbox2ll-rect_text}

abbrev street : Component
street = record { types = "route" ∷ []; short_name = "五一大道" }

abbrev number : Component
number = record { types = "street_number" ∷ []; short_name = "1" }

abbrev district : Component
district = record { types = "locality" ∷ "political" ∷ []; short_name = "长沙市" }

-- The street is left, since the number before it went.
geo_loop_ends_example :
    geo_loop 4 0 (number ∷ street ∷ district ∷ []) ≡ some (street ∷ district ∷ [])
unfolding is_other
geo_loop_ends_example = geo_loop_ends (number ∷ street ∷ district ∷ [])

-- A number is its first figure.
abbrev parse : Option Text → ℕ
parse none = 0
parse (some []) = 0
parse (some (c ∷ s)) = c

dbbox2ll-rect_text_example :
    dbbox2ll parse ltb (rect_text (b'7' ∷ []) (b'1' ∷ []) (b'5' ∷ []) (b'2' ∷ []))
    ≡ some ((b'5', b'2'), (b'7', b'1'))
dbbox2ll-rect_text_example =
    dbbox2ll-rect_text parse ltb (b'7' ∷ []) (b'1' ∷ []) (b'5' ∷ []) (b'2' ∷ []) (refl, tt)
      (refl, tt) (refl, tt) (refl, tt)
