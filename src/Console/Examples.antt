-- ===== src/Console/Examples.antt =====
-- The theorems on the console at the page as pop/tpl/oms/oms.html delivers it, with one visitor.
use cmoon.Base.{
  ◌≡◌, refl, inr, true, false, List, [], ◌∷◌, Option, none, some, eq_iff, arith, String, units,
  lookup,
}
use cmoon.Chat.Uri.{decode_uri}
use cmoon.Chat.Render.{Message}
use cmoon.Roster.{UserNode, new_node}
use cmoon.Console.{Console, lcs_msg, json_msg, uri_error, number_at}
use cmoon.Console.Messages.{msg_send, Answer, call_raws, send_request, next_page}
use cmoon.Console.Keeps.{IsFocused}
use cmoon.Console.Run.{run, Event, opened, sent, typed, came}
use cmoon.Console.Run.{run-IsFocused}
use cmoon.Console.Sending.{msg_send-requests, msg_send_of_percent}
use cmoon.Console.History.{IsWhole}
use cmoon.Console.Pages.{turns, turns-requests}

abbrev everyone : UserNode
everyone = record (new_node "0") { is_cur = true }

abbrev page : Console
page = record {
  aname = "shop";
  c_user_id = "0";
  users_on = "0" ∷ [];
  users_fetched = "0" ∷ [];
  users_new = "0" ∷ [];
  users_total_msg = [];
  users_load_page = [];
  tabs = (everyone ∷ []) ∷ [];
  boxes = [];
  input = [];
  send_handlers = 0;
  stat = [];
  restores = [];
  group_pubid = some "group";
  current_pipe = none;
  is_loading = true;
  indicator_shown = true;
  indicator_error = false;
  need_admin_shown = false;
  sound_on = false;
  is_msie = false;
  reminder_src = [];
  plays = 0;
  scrolls = 0;
  requests = [];
}

abbrev pipes : Option String → Option String
pipes p = p

page-IsFocused : IsFocused page
page-IsFocused = record {
  nodes_ok = record {
    unique = λ m. ground (arith, eq_iff "0" m);
    others = λ m ne. ground (arith, eq_iff "0" m);
  };
  boxes_ok = tt;
}

abbrev session : List Event
session =
    came "ann" "p1" ∷ opened "ann" ∷ typed (units "hi") ∷ sent (units "10:00:00") ∷ opened "0" ∷ []

run-IsFocused_example : IsFocused (run pipes session page)
run-IsFocused_example = run-IsFocused pipes session page page-IsFocused

abbrev typing : String → Console
typing s = record page { input = units s }

msg_send-requests_example : (msg_send [] (typing "hi")).0.requests ≡ lcs_msg "0" (units "hi") ∷ []
unfolding units decode_uri send_request
msg_send-requests_example = msg_send-requests [] (typing "hi")

msg_send_of_percent_example :
    ((msg_send [] (typing "100%")).1 ≡ uri_error)
    × ((msg_send [] (typing "100%")).0.requests ≡ [])
    × ((msg_send [] (typing "100%")).0.input ≡ units "100%")
unfolding units
msg_send_of_percent_example = msg_send_of_percent [] (units "100") (typing "100%") refl

abbrev busy : Console
busy = record page { users_on = "0" ∷ "ann" ∷ "bob" ∷ [] }

-- An answer of `/json/msg` with no messages on its page, of 50 in all.
abbrev empty_page : Answer Message
empty_page = record { is_success = true; raws = []; ntt = some 50 }

empty_page-IsWhole : (c : Console) → IsWhole "ann" 50 empty_page c
unfolding call_raws
empty_page-IsWhole c = record { success = refl; told = refl; handled = refl }

turns-requests_example :
    (turns "ann" (empty_page ∷ empty_page ∷ []) page).requests
    ≡ json_msg "ann" "shop" 1 ∷ json_msg "ann" "shop" 2 ∷ []
unfolding next_page number_at lookup
turns-requests_example =
    turns-requests "ann" 49 (empty_page ∷ empty_page ∷ []) page (inr (refl, refl))
      ((λ e. empty_page-IsWhole _), ((λ e. empty_page-IsWhole _), tt))
