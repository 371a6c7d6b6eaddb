-- ===== src/Paging/Examples.antt =====
-- The navigation bar at forty items on pages of fifteen, where the second page is shown.
use cmoon.Base.{◌≡◌, refl, [], ◌∷◌, none, some, true, units, decimal, digits_from}
use cmoon.Paging.{
  Nav, Options, total_pages, click, next, target, called, visit, show, current_page, link_rel,
  is_before, goto_page, goto_number, is_beyond, refuse,
}
use cmoon.Paging.Numerals.{parse_int}
use cmoon.Paging.Moves.{moves-WentToPages, WentToPages, moves, entered, clicked}

abbrev forty : Options
forty = record { npp = 15; npg = 2; ntt = 40; url = [] }

abbrev blank : Nav
blank = record { cpg = none; inp = []; is_invalid = true; gone = [] }

forty_total : total_pages forty ≡ some 3
unfolding total_pages
forty_total = refl

moves-WentToPages_example :
    WentToPages 3 [] blank (moves 2 (some 3) [] (entered (units "9") ∷ clicked next ∷ []) blank)
moves-WentToPages_example = moves-WentToPages 2 3 [] (entered (units "9") ∷ clicked next ∷ []) blank

-- What the moves of the last example come to.
moved :
    (moves 2 (some 3) [] (entered (units "9") ∷ clicked next ∷ []) (show forty blank)).gone
    ≡ called 3 ∷ []
unfolding moves show click link_rel is_before goto_page goto_number parse_int decimal is_beyond
    visit units refuse target digits_from current_page
moved = refl
