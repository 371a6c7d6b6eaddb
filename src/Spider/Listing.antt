-- ===== src/Spider/Listing.antt =====
-- `parseList` of the scripts in dida/fly/js/admin/spd/: the links of a list, and the answer that says
-- which of them are opened.
pub mod Opening
use cmoon.Base.{
  Bool, true, false, ◌||◌, List, [], ◌∷◌, ◌++◌, Option, none, some, map, if◌then◌else◌, Text,
  text_eq,
}
use cmoon.Spider.{Pattern, Site, matched, in_area}

-- `urls`
abbrev pub Urls : Type 0
Urls = List (Text × Text)

unfoldable pub url_of : Text → Urls → Option Text
url_of i [] = none
url_of i ((j, u) ∷ m) = if text_eq i j then some u else url_of i m

-- `urls[i] = u`
unfoldable pub put_url : Text → Text → Urls → Urls
put_url i u [] = (i, u) ∷ []
put_url i u ((j, v) ∷ m) = if text_eq i j then (i, u) ∷ m else (j, v) ∷ put_url i u m

pub record Listed : Type 0 where
  pub ids : List Text
  pub urls : Urls

module _ (w : Site) where
  abbrev pub id_of : Text → Option Text
  unfolding matched
  id_of h = in_area w.area (matched w.link h)

  abbrev pub note : Text → Option Text → Listed → Listed
  unfolding put_url
  note h none l = l
  note h (some i) l = record { ids = l.ids ++ i ∷ []; urls = put_url i (w.base ++ h) l.urls }

  -- The loop over the links.
  unfoldable pub note_all : List Text → Listed → Listed
  note_all [] l = l
  note_all (h ∷ hs) l = note_all hs (note h (id_of h) l)

  unfoldable pub parse_list : List Text → Listed
  unfolding note_all
  parse_list hs = note_all hs (record { ids = []; urls = [] })

-- The answer: whether it is a success, and its `oids` if they are an object.
abbrev pub Told : Type 0
Told = Bool × Option (List Text)

-- A window at `none` is opened at an undefined address.
pub data Opened : Type 0 where
  windows : List (Option Text) → Opened
  all_done : Opened
  alerts : Opened

abbrev pub open_all : Urls → Option (List Text) → Opened
unfolding url_of
open_all m none = all_done
open_all m (some vs) = windows (map (λ v. url_of v m) vs)

-- Every window is opened by a timer of its own, at a random time.
unfoldable pub on_told : Urls → Told → Opened
on_told m (success, oids) = if success then open_all m oids else alerts
