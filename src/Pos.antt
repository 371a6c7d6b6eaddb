-- ===== src/Pos.antt =====
-- The points of the cities, dida/fly/js/admin/pos.js. The geocoder of the map is asked and answers
-- later; a point is its text.
pub mod Asking
mod Examples
use cmoon.Base.{
  ℕ, zero, suc, Bool, true, false, List, [], ◌∷◌, ◌++◌, Option, none, some, get_elem?, length, ◌==◌,
  if◌then◌else◌, Text,
}

-- `s` and `id` of a city.
pub record City : Type 0 where
  pub s : Text
  pub id : ℕ

pub record Post : Type 0 where
  pub city : City
  pub latlng : Text

-- `curr_city`, the cities that the geocoder was asked for, the posts, and whether a timer of `getPos`
-- is pending.
pub record Pos : Type 0 where
  pub curr_city : ℕ
  pub asked : List City
  pub posts : List Post
  pub is_pending : Bool

abbrev pub ask : City → Pos → Pos
ask c p = record p { curr_city = suc p.curr_city; asked = p.asked ++ c ∷ []; is_pending = true }

-- `none` is the exception where there is no such city.
abbrev pub asked_at : Option City → Pos → Option Pos
asked_at none p = none
asked_at (some c) p = some (ask c p)

-- `getPos`
unfoldable pub get_pos : List City → Pos → Option Pos
get_pos cities p =
    if suc p.curr_city == length cities
    then some (record p { is_pending = false })
    else asked_at (get_elem? cities p.curr_city) p

-- The callback of the geocoder, with `none` for a status that is not OK.
unfoldable pub on_geocode : City → Option Text → Pos → Pos
on_geocode c none p = p
on_geocode c (some l) p = record p { posts = p.posts ++ record { city = c; latlng = l } ∷ [] }

-- As often as given the timer runs, if there is one.
abbrev pub ticked : Bool → List City → Pos → Option Pos
unfolding get_pos
ticked false cities p = some p
ticked true cities p = get_pos cities p

abbrev pub ticks_from : (Pos → Option Pos) → Option Pos → Option Pos
ticks_from f none = none
ticks_from f (some p) = f p

unfoldable pub ticks : ℕ → List City → Pos → Option Pos
unfolding ticked
ticks zero cities p = some p
ticks (suc n) cities p = ticks_from (ticks n cities) (ticked p.is_pending cities p)

-- What `onready` leaves: the first call is to come.
abbrev pub ready : Pos
ready = record { curr_city = 0; asked = []; posts = []; is_pending = true }
