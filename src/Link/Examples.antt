-- ===== src/Link/Examples.antt =====
-- The operator's connection at concrete joins and leaves.
use cmoon.Base.{◌≡◌, refl, true, false, [], ◌∷◌, Option, none, some, String, contains, units}
use cmoon.Roster.{UserNode, new_node}
use cmoon.Console.{Console, remove_first}
use cmoon.Link.{Pipe, User}
use cmoon.Link.Presence.{joined, quit, dear, run, run-account}
use cmoon.Console.Events.{name}

abbrev everyone : UserNode
everyone = record (new_node "0") { is_cur = true }

abbrev console : Console
console = record {
  aname = "shop";
  c_user_id = "0";
  users_on = "0" ∷ [];
  users_fetched = "0" ∷ [];
  users_new = "0" ∷ [];
  users_total_msg = [];
  users_load_page = [];
  tabs = (everyone ∷ []) ∷ [];
  boxes = [];
  input = [];
  send_handlers = 0;
  stat = [];
  restores = [];
  group_pubid = some "group";
  current_pipe = none;
  is_loading = true;
  indicator_shown = true;
  indicator_error = false;
  need_admin_shown = false;
  sound_on = false;
  is_msie = false;
  reminder_src = [];
  plays = 0;
  scrolls = 0;
  requests = [];
}

abbrev own : Pipe
own = record { aname = some "shop"; pubid = "group" }

abbrev ann : User
ann = record { uin = "ann"; pubid = "p1" }

abbrev operator : User
operator = record { uin = "shop"; pubid = "p0" }

abbrev pipes : Option String → Option String
pipes p = p

run-account_example :
    let es = joined operator own ∷ joined ann own ∷ dear (name "bob" ∷ []) ∷ quit ann own [] ∷ [] in
    ((run pipes es console).users_on ≡ "0" ∷ [])
    × (contains "shop" (run pipes es console).users_on ≡ false)
unfolding units remove_first
run-account_example =
    run-account pipes
      (joined operator own ∷ joined ann own ∷ dear (name "bob" ∷ []) ∷ quit ann own [] ∷ []) console
      (tt, (tt, (tt, ((refl, refl), tt)))) refl
