-- ===== src/Console/Run.antt =====
-- The console over a whole session: its events in any order, and what every session keeps.
use cmoon.Base.{
  ℕ, String, ◌≡◌, refl, Bool, List, [], ◌∷◌, map, Option, none, some, zero, suc, length-map, Text,
  arith,
}
use cmoon.Chat.Render.{Message}
use cmoon.Roster.{UserNode, Tabs}
use cmoon.Roster.Nodes.{nodes, nodes_in}
use mathlib.Core.List.{map-append}
use cmoon.Console.{Console, Exit, finished, uri_error, type_error, ◌>>=◌}
use cmoon.Console.Messages.{
  msg_send, restore_stat, get_message, Answer, on_messages, call_raws, count_page, note_total,
}
use cmoon.Console.Events.{
  on_ready, need_more_admin, judge_ready, dear_user, dear_keys, dear_users, Dear, keys, name, other,
  on_recently, on_data, on_place, user_off, user_on, bind_click, open_chat,
}
use cmoon.Console.Focus.{All-map, update-InFocus}
use cmoon.Console.Keeps.{
  IsFocused, if_keeps, node_msg-IsFocused, prepend_recent-IsFocused, on_data-IsFocused,
  on_recently-IsFocused,
}
use cmoon.Console.Opening.{
  send_input-IsFocused, get_message-IsFocused, dear_user-IsFocused, open_chat-IsFocused,
  user_on-IsFocused, user_off-IsFocused,
}

-- What the client library hands on: a message of the past or a new one.
pub data Raw : Type 0 where
  recent live : Message → Raw

unfoldable pub call_raw : Raw → Console → Console × Exit
call_raw (recent m) = on_recently m
call_raw (live m) = on_data m

-- What can happen to a console, with what the page, the server and the clock contribute.
pub data Event : Type 0 where
  readied : Option String → Event
  lacked_admin judged restored scrolled : Event
  typed sent : Text → Event
  opened : String → Event
  answered : String → ℕ → Answer Raw → Event
  listed : List Dear → Event
  came : String → String → Event
  left : String → Text → Event
  received : Raw → Event
  placed : String → Bool → String → Event

-- The operator scrolls to the first message: `getMessage` of pop/fly/js/oms/oms.js.
unfoldable pub older_messages : Console → Console
older_messages c = get_message c.c_user_id c

module _ (get_pipe : Option String → Option String) where
  unfoldable pub step : Event → Console → Console
  unfolding older_messages
  step (readied pubid) c = on_ready pubid c
  step lacked_admin c = need_more_admin c
  step judged c = judge_ready c
  step restored c = restore_stat c
  step scrolled c = older_messages c
  step (typed s) c = record c { input = s }
  step (sent tm) c = (msg_send tm c).0
  step (opened n) c = open_chat get_pipe n c
  step (answered n pg answer) c = (on_messages call_raw n pg answer c).0
  step (listed ds) c = dear_users ds c
  step (came n pubid) c = user_on get_pipe n pubid c
  step (left n tm) c = (user_off n tm c).0
  step (received r) c = (call_raw r c).0
  step (placed n is_success place) c = on_place n is_success place c

  unfoldable pub run : List Event → Console → Console
  unfolding step
  run [] c = c
  run (e ∷ es) c = run es (step e c)

call_raw-IsFocused : (r : Raw) (c : Console) → IsFocused c → IsFocused (call_raw r c).0
unfolding call_raw
call_raw-IsFocused (recent m) c v = on_recently-IsFocused m c v
call_raw-IsFocused (live m) c v = on_data-IsFocused m c v

bind-IsFocused :
    (r : Console × Exit) (f : Console → Console × Exit)
    → IsFocused r.0
    → ((c : Console) → IsFocused c → IsFocused (f c).0)
    → IsFocused (r >>= f).0
bind-IsFocused (c, finished) f v k = k c v
bind-IsFocused (c, uri_error) f v k = v
bind-IsFocused (c, type_error) f v k = v

call_raws-IsFocused :
    (rs : List (Option Raw)) (c : Console) → IsFocused c → IsFocused (call_raws call_raw rs c).0
unfolding call_raws
call_raws-IsFocused [] c v = v
call_raws-IsFocused (none ∷ rs) c v = call_raws-IsFocused rs c v
call_raws-IsFocused (some r ∷ rs) c v =
    bind-IsFocused (call_raw r c) (call_raws call_raw rs) (call_raw-IsFocused r c v)
      (call_raws-IsFocused rs)

noted : (n : String) (ntt : Option ℕ) (c : Console) → IsFocused c → IsFocused (note_total n ntt c)
noted n none c v = v
noted n (some zero) c v = v
noted n (some (suc k)) c v = record { nodes_ok = v.nodes_ok; boxes_ok = v.boxes_ok }

counted : (n : String) (c : Console) → IsFocused c → IsFocused (count_page n c)
unfolding count_page
counted n c v = record { nodes_ok = v.nodes_ok; boxes_ok = v.boxes_ok }

on_messages-IsFocused :
    (n : String) (pg : ℕ) (answer : Answer Raw) (c : Console)
    → IsFocused c
    → IsFocused (on_messages call_raw n pg answer c).0
unfolding on_messages
on_messages-IsFocused n pg answer c v =
    if_keeps (λ (r : Console × Exit). IsFocused r.0) answer.is_success
      (bind-IsFocused (call_raws call_raw answer.raws c) _ (call_raws-IsFocused answer.raws c v)
        λ d k. counted n _ (noted n answer.ntt _ (prepend_recent-IsFocused n _ d k)))
      v

dear_keys-IsFocused : (ns : List String) (c : Console) → IsFocused c → IsFocused (dear_keys ns c)
unfolding dear_keys
dear_keys-IsFocused [] c v = v
dear_keys-IsFocused (n ∷ ns) c v =
    dear_keys-IsFocused ns (dear_user n c) (dear_user-IsFocused n c v)

dear_users-IsFocused : (ds : List Dear) (c : Console) → IsFocused c → IsFocused (dear_users ds c)
unfolding dear_users
dear_users-IsFocused [] c v = v
dear_users-IsFocused (keys ns ∷ ds) c v =
    dear_users-IsFocused ds (dear_keys ns c) (dear_keys-IsFocused ns c v)
dear_users-IsFocused (name n ∷ ds) c v =
    dear_users-IsFocused ds (dear_user n c) (dear_user-IsFocused n c v)
dear_users-IsFocused (other ∷ ds) c v = dear_users-IsFocused ds c v

nodes_in-map :
    (f : UserNode → UserNode) (k : (u : UserNode) → (f u).uname ≡ u.uname) (m : String)
    (us : List UserNode)
    → nodes_in m (map f us) ≡ map f (nodes_in m us)
nodes_in-map f k m [] = refl
nodes_in-map f k m (u ∷ us) = ground (arith, k u, nodes_in-map f k m us)

nodes-map :
    (f : UserNode → UserNode) (k : (u : UserNode) → (f u).uname ≡ u.uname) (m : String) (ts : Tabs)
    → nodes m (map (map f) ts) ≡ map f (nodes m ts)
nodes-map f k m [] = refl
nodes-map f k m (t ∷ ts) =
    ground
      (arith, nodes_in-map f k m t, nodes-map f k m ts, map-append f (nodes_in m t) (nodes m ts))

on_ready-IsFocused : (p : Option String) (c : Console) → IsFocused c → IsFocused (on_ready p c)
unfolding on_ready
on_ready-IsFocused p c v = record {
  nodes_ok = record {
    unique = λ m. ground (
      arith,
      nodes-map bind_click (λ u. refl) m c.tabs,
      length-map (nodes m c.tabs) bind_click,
      v.nodes_ok.unique m,
    );
    others = λ m ne.
        rw (nodes-map bind_click (λ u. refl) m c.tabs)
          (All-map bind_click (nodes m c.tabs) (λ u k. k) (v.nodes_ok.others m ne));
  };
  boxes_ok = v.boxes_ok;
}

restore_cases :
    (xs : List Text) (c : Console) → c.restores ≡ xs → IsFocused c → IsFocused (restore_stat c)
unfolding restore_stat
restore_cases [] c e v = rw (e, restore_stat) v
restore_cases (x ∷ xs) c e v =
    rw (e, restore_stat) (record { nodes_ok = v.nodes_ok; boxes_ok = v.boxes_ok })

restore_stat-IsFocused : (c : Console) → IsFocused c → IsFocused (restore_stat c)
restore_stat-IsFocused c v = restore_cases c.restores c refl v

module _ (get_pipe : Option String → Option String) where
  step-IsFocused : (e : Event) (c : Console) → IsFocused c → IsFocused (step get_pipe e c)
  unfolding step restore_stat judge_ready need_more_admin on_place msg_send
  step-IsFocused (readied p) c v = on_ready-IsFocused p c v
  step-IsFocused lacked_admin c v = record { nodes_ok = v.nodes_ok; boxes_ok = v.boxes_ok }
  step-IsFocused judged c v =
      if_keeps IsFocused c.is_loading (record { nodes_ok = v.nodes_ok; boxes_ok = v.boxes_ok }) v
  step-IsFocused restored c v = restore_stat-IsFocused c v
  step-IsFocused scrolled c v = get_message-IsFocused c.c_user_id c v
  step-IsFocused (typed s) c v = record { nodes_ok = v.nodes_ok; boxes_ok = v.boxes_ok }
  step-IsFocused (sent tm) c v = send_input-IsFocused tm _ (node_msg-IsFocused c.c_user_id c v)
  step-IsFocused (opened n) c v = open_chat-IsFocused get_pipe n c v
  step-IsFocused (answered n pg answer) c v = on_messages-IsFocused n pg answer c v
  step-IsFocused (listed ds) c v = dear_users-IsFocused ds c v
  step-IsFocused (came n pubid) c v = user_on-IsFocused get_pipe n pubid c v
  step-IsFocused (left n tm) c v = user_off-IsFocused n tm c v
  step-IsFocused (received r) c v = call_raw-IsFocused r c v
  step-IsFocused (placed n b place) c v =
      if_keeps IsFocused b
        (record {
          nodes_ok = update-InFocus c.c_user_id n _ (λ u. refl) c.tabs (λ ne u k. k) v.nodes_ok;
          boxes_ok = v.boxes_ok;
        })
        v

  -- Whatever happens, ids stay unique, no node but the current visitor's is highlighted, and no
  -- messages but the current visitor's are shown.
  pub run-IsFocused : (es : List Event) (c : Console) → IsFocused c → IsFocused (run get_pipe es c)
  unfolding run
  run-IsFocused [] c v = v
  run-IsFocused (e ∷ es) c v = run-IsFocused es (step get_pipe e c) (step-IsFocused e c v)
