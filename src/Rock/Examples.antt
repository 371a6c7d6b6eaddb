-- ===== src/Rock/Examples.antt =====
-- A list of one file, and a login after an operation that wants one.
use cmoon.Base.{◌≡◌, true, [], ◌∷◌, none, units}
use cmoon.Rock.{Page, CbkOpts, Answer, Files, FileAnswer, sensitive}
use cmoon.Rock.Listing.{IsBare, asked, answered, run, run-IsBare}
use cmoon.Rock.Login

abbrev blank : Page
blank = record { alerts = []; login_opts = none; title_text = []; rurl_text = []; gone = [] }

abbrev one_file : FileAnswer
unfolding units
one_file = record {
  head = record { success = units "1"; errmsg = [] };
  files = (("id", units "7") ∷ ("pid", units "0") ∷ []) ∷ [];
  ttnum = 1;
}

abbrev no_files : Files
no_files = record { page = blank; shown = none; ttnum = none; asked = [] }

run-IsBare_example : IsBare (run (asked 1 [] ∷ answered one_file ∷ []) no_files).shown
run-IsBare_example = run-IsBare (asked 1 [] ∷ answered one_file ∷ []) no_files tt

abbrev opts : CbkOpts
unfolding units
opts = record { suctip = true; errmsg = []; rurl = units "/a" }

abbrev refused : Answer
unfolding sensitive
refused = record { success = []; errmsg = sensitive }

run-accounts_example :
    Login.of_page (Login.run (Login.answered opts refused ∷ Login.logged_in ∷ []) blank)
    ≡ Login.accounts (Login.answered opts refused ∷ Login.logged_in ∷ []) (Login.of_page blank)
run-accounts_example = Login.run-accounts (Login.answered opts refused ∷ Login.logged_in ∷ []) blank
