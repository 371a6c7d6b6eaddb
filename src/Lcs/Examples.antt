-- ===== src/Lcs/Examples.antt =====
-- A login on a concrete page.
use cmoon.Base.{◌≡◌, refl, true, false, List, [], ◌∷◌, none, some, Text, units, finished, uri_error}
use cmoon.Query.{get_query_string, find_value}
use cmoon.Query.Address.{address, value_of, value_or_nothing}
use cmoon.Chat.Uri.{decode_uri}
use cmoon.Lcs.{Page, Event, pressed, answered, timer, onready, run, login_check, or_else}
use cmoon.Lcs.Leaving.{IsLeading, logins, run-IsLeading}

abbrev at : Text → Page
at a = record {
  href = a;
  cookies = record { aname = none; aname_esc = none; asn = none; masn = none };
  shown_name = [];
  has_member = false;
  has_guest = false;
  loginaname = [];
  loginref = [];
  is_overlaid = false;
  text_error = none;
  requests = 0;
  alerts = [];
  timers = 0;
  gone = [];
}

abbrev session : List Event
session =
    pressed true
    ∷ answered
        (record { aname = some (b'u' ∷ []); aname_esc = some (b'u' ∷ []); asn = none; masn = none })
        (record { is_success = true; aname = b'u' ∷ []; errmsg = [] })
    ∷ timer
    ∷ []

abbrev asked_for : Text
asked_for = address (units "http://b.com/") (units "loginref", units "/oms") []

run-IsLeading_example :
    ((onready (at asked_for)).1 ≡ finished)
    × IsLeading
        (or_else
          (value_or_nothing (value_of (units "loginref") ((units "loginref", units "/oms") ∷ [])))
          asked_for)
        (logins session 0)
        (run session (onready (at asked_for)).0)
unfolding units
run-IsLeading_example =
    run-IsLeading (units "http://b.com/") (units "loginref", units "/oms") [] session (at asked_for)
      refl refl refl refl refl

-- The error of the address stands on the page as it is, with its markup.
with_markup :
    (onready (at (units "/?vikierr=<img onerror=alert(1)>"))).0.text_error
    ≡ some (units "<img onerror=alert(1)>")
unfolding onready login_check get_query_string find_value decode_uri units
with_markup = refl

thrown_out : (onready (at (units "/?loginref=%"))).1 ≡ uri_error
unfolding onready login_check get_query_string find_value decode_uri units
thrown_out = refl
