-- ===== src/Forms/Examples.antt =====
-- The forms at small fields, with a digest that puts a letter before a text.
use cmoon.Base.{true, false, List, [], ◌∷◌, refl, Text}
use cmoon.Forms.{Marks, Account, taken, vacant}
use cmoon.Forms.Racing.{IsSettled, Turn, typed, checked, added, turns, turns-IsSettled}

abbrev blank : Marks
blank = record { loading = false; success = false; error = false; notes = [] }

blank-IsSettled : IsSettled blank
blank-IsSettled = record { idle = refl; single = refl; told = refl; own = refl }

abbrev page : Account
page = record {
  name = b'a' ∷ [];
  also = [];
  secret = b's' ∷ [];
  at_name = blank;
  at_submit = blank;
  timers = 0;
  requests = [];
}

abbrev md5 : Text → Text
md5 s = b'm' ∷ s

abbrev session : List Turn
session =
    checked (taken []) ∷ typed (b'b' ∷ []) [] [] ∷ checked vacant ∷ added true true false [] ∷ []

turns-IsSettled_example :
    IsSettled (turns md5 session page).at_name × IsSettled (turns md5 session page).at_submit
turns-IsSettled_example = turns-IsSettled md5 session page blank-IsSettled blank-IsSettled
