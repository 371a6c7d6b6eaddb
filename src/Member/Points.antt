-- ===== src/Member/Points.antt =====
-- The points and boxes of the database as texts, `dbpoint2ll` and `dbbox2ll` of
-- dida/fly/js/bmoon.dida.js.
pub mod Reading
use cmoon.Base.{
  ℕ, ◌≡◌, refl, ap, sym, ◌∙◌, Bool, true, false, not, ◌&&◌, ◌||◌, List, [], ◌∷◌, ◌++◌, Option, none,
  some, get_elem?, ltb, ◌==◌, if◌then◌else◌, Text, arith, Bool-cases, inl, inr,
}
use cmoon.Fields.{is_digit}

-- `s.split(',')`: the first piece and the others.
abbrev pub split_comma : Text → Text × List Text
split_comma [] = ([], [])
split_comma (c ∷ s) = let (p, ps) = split_comma s in if c == b',' then ([], p ∷ ps) else (c ∷ p, ps)

abbrev pub pieces : Text → List Text
pieces s = let (p, ps) = split_comma s in p ∷ ps

-- `[0-9\.]`
abbrev pub is_figure : ℕ → Bool
is_figure c = is_digit c || (c == b'.')

-- The longest run of figures that a text begins with.
abbrev pub run_of : Text → Text
run_of [] = []
run_of (c ∷ s) = if is_figure c then c ∷ run_of s else []

-- `s.match(/[0-9\.]+/)`: the first run of figures.
unfoldable pub first_run : Text → Option Text
first_run [] = none
first_run (c ∷ s) = if is_figure c then some (c ∷ run_of s) else first_run s

-- The text of the number in a piece; `none` is a piece that is not there, which throws. A piece with
-- no figure gives `none` inside, of which `parseFloat` makes NaN.
unfoldable pub number_in : ℕ → List Text → Option (Option Text)
unfolding first_run
number_in i ps = elim (get_elem? ps i) [ none ↦ none | some p ↦ some (first_run p) ]

abbrev pub point_of : List Text → Option (Option Text × Option Text)
point_of ps = elim (number_in 0 ps) [
  | none ↦ none
  | some lat ↦ elim (number_in 1 ps) [ none ↦ none | some lng ↦ some (lat, lng) ]
]

-- The texts that `dbpoint2ll` hands to `parseFloat`.
unfoldable pub point_numbers : Text → Option (Option Text × Option Text)
unfolding number_in
point_numbers s = point_of (pieces s)

abbrev pub corners_of :
    List Text → Option ((Option Text × Option Text) × (Option Text × Option Text))
corners_of ps = elim (number_in 0 ps) [
  | none ↦ none
  | some lat1 ↦ elim (number_in 1 ps) [
    | none ↦ none
    | some lng1 ↦ elim (number_in 2 ps) [
      | none ↦ none
      | some lat2 ↦ elim (number_in 3 ps) [
        | none ↦ none
        | some lng2 ↦ some ((lat1, lng1), (lat2, lng2))
      ]
    ]
  ]
]

-- The texts that `dbbox2ll` hands to `parseFloat`, as two points.
unfoldable pub corners : Text → Option ((Option Text × Option Text) × (Option Text × Option Text))
unfolding number_in
corners s = corners_of (pieces s)

-- `parse` is `parseFloat`, at `none` for `null`, and `lt` the order of its numbers.
module _ {Number : Type 0} (parse : Option Text → Number) (lt : Number → Number → Bool) where
  abbrev pub parsed : Option Text × Option Text → Number × Number
  parsed (lat, lng) = (parse lat, parse lng)

  abbrev pub parsed_point : Option (Option Text × Option Text) → Option (Number × Number)
  parsed_point none = none
  parsed_point (some p) = some (parsed p)

  -- `dbpoint2ll`, with `none` for an exception.
  unfoldable pub dbpoint2ll : Text → Option (Number × Number)
  unfolding point_numbers
  dbpoint2ll s = parsed_point (point_numbers s)

  -- The point of the lower latitude comes first.
  abbrev pub ordered : Number × Number → Number × Number → (Number × Number) × (Number × Number)
  ordered (a, b) (c, d) = if lt a c then ((a, b), (c, d)) else ((c, d), (a, b))

  abbrev pub parsed_box :
      Option ((Option Text × Option Text) × (Option Text × Option Text))
      → Option ((Number × Number) × (Number × Number))
  parsed_box none = none
  parsed_box (some (p, q)) = some (ordered (parsed p) (parsed q))

  -- `dbbox2ll`
  unfoldable pub dbbox2ll : Text → Option ((Number × Number) × (Number × Number))
  unfolding corners
  dbbox2ll s = parsed_box (corners s)
