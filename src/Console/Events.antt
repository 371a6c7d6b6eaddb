-- ===== src/Console/Events.antt =====
-- The handlers of bmoon.chatb.js. What the page, the client library and the server do between them
-- is the order in which they are called. `get_pipe` is the client library's.
use cmoon.Base.{
  suc, String, Bool, true, false, List, [], ◌∷◌, ◌++◌, map, Option, none, some, str_eq, contains,
  if◌then◌else◌, Text, units,
}
use cmoon.Chat.Render.{Message, no_payload}
use cmoon.Console.Messages.{get_message}
use cmoon.Roster.{UserNode, named, find_place, update, node_user, post_user_dirty}
use cmoon.Console.{
  Console, json_place, Exit, finished, uri_error, update_box, node_msg, ensure_user, append_data,
  prepend_recent, scroll_down, send, sound_remind, console_msg, splice_name,
}

abbrev pub bind_click : UserNode → UserNode
bind_click u = record u { clicks = suc u.clicks }

-- `onready`, with `bindClick`: a handler more for the input, the button and every visitor's node.
unfoldable pub on_ready : Option String → Console → Console
on_ready pubid c = record c {
  group_pubid = pubid;
  tabs = map (map bind_click) c.tabs;
  send_handlers = suc c.send_handlers;
  is_loading = false;
  indicator_shown = false;
}

unfoldable pub need_more_admin : Console → Console
need_more_admin c = record c { indicator_shown = false; need_admin_shown = true }

unfoldable pub judge_ready : Console → Console
judge_ready c = if c.is_loading then record c { indicator_error = true } else c

-- An element of the array that `dearUsers` is given: the keys of an object, a text, or neither.
pub data Dear : Type 0 where
  keys : List String → Dear
  name : String → Dear
  other : Dear

unfoldable pub dear_user : String → Console → Console
dear_user n c₀ =
    let c : Console = ensure_user n c₀ in
    let dirty : Console =
      if str_eq n c.c_user_id
      then c
      else record c { tabs = update n (λ u. record u { is_dirty = true }) c.tabs } in
    record dirty { tabs = post_user_dirty n dirty.tabs }

unfoldable pub dear_keys : List String → Console → Console
unfolding dear_user
dear_keys [] c = c
dear_keys (n ∷ ns) c = dear_keys ns (dear_user n c)

unfoldable pub dear_users : List Dear → Console → Console
unfolding dear_keys
dear_users [] c = c
dear_users (keys ns ∷ ds) c = dear_users ds (dear_keys ns c)
dear_users (name n ∷ ds) c = dear_users ds (dear_user n c)
dear_users (other ∷ ds) c = dear_users ds c

abbrev has_user : String → Console → Bool
has_user n c = elim (find_place (named n) c.tabs) [ none ↦ false | some w ↦ true ]

-- `onRecently`
unfoldable pub on_recently : Message → Console → Console × Exit
on_recently m c₀ =
    let uname : String = if str_eq m.sender c₀.aname then m.receiver else m.sender in
    let c : Console = node_msg uname (ensure_user uname c₀) in
    elim (console_msg c m) [
      | none ↦ (c, uri_error)
      | some html ↦ (prepend_recent uname html c, finished)
    ]

-- The sound of a message, and the request for where a visitor who joins comes from.
unfoldable pub announce : Message → Console → Console
announce m c =
    if str_eq m.kind "send"
    then sound_remind "receive" c
    else if str_eq m.kind "join"
    then send (json_place m.payload.ip) (sound_remind "login" c)
    else if str_eq m.kind "left"
    then sound_remind "logout" c
    else c

-- A message of somebody else than the current visitor.
unfoldable pub mark_dirty : String → Console → Console
mark_dirty n c = if str_eq c.c_user_id n then c else record c {
  tabs = post_user_dirty n (update n (λ u. record u { is_dirty = true }) c.tabs);
  users_fetched = if contains n c.users_new then c.users_fetched ++ n ∷ [] else c.users_fetched;
}

-- `onData`
unfoldable pub on_data : Message → Console → Console × Exit
on_data m c₀ =
    let n : String = m.sender in
    let c : Console = node_msg n (ensure_user n c₀) in
    elim (console_msg c m) [
      | none ↦ (c, uri_error)
      | some html ↦
          let d : Console = append_data n html (mark_dirty n (announce m c)) in
          (if str_eq d.c_user_id n then scroll_down d else d, finished)
    ]

-- The answer of `/json/place`.
unfoldable pub on_place : String → Bool → String → Console → Console
on_place n is_success place c =
    if is_success then record c { tabs = update n (λ u. record u { place = place }) c.tabs } else c

-- `userOff`. Its markup goes nowhere, but making it may throw.
unfoldable pub user_off : String → Text → Console → Console × Exit
user_off n tm c =
    let m : Message = record {
      sender = n;
      receiver = "";
      kind = "left";
      tm = tm;
      payload = no_payload;
    } in
    elim (console_msg c m) [
      | none ↦ (c, uri_error)
      | some html ↦ (
        record c {
          tabs = update n (λ u. record u { is_on = false; is_off = true; pubid = "" }) c.tabs;
          users_on = splice_name n c.users_on;
        },
        finished,
      )
    ]

-- The visitor that was current is left: the class goes, a handler comes, the box is hidden.
unfoldable pub leave_current : Console → Console
leave_current c = record c {
  tabs = update c.c_user_id (λ u. record u { is_cur = false; clicks = suc u.clicks }) c.tabs;
  boxes = update_box c.c_user_id (λ b. record b { is_shown = false }) c.boxes;
}

unfoldable pub enter : String → Console → Console
enter n c₀ =
    let c : Console = node_msg n (record c₀ {
      c_user_id = n;
      tabs = update n (λ u. record u { is_dirty = false; is_cur = true; clicks = 0 }) c₀.tabs;
    }) in
    record c {
      boxes = update_box n (λ b. record b { is_shown = true }) c.boxes;
      scrolls = suc c.scrolls;
      stat = if str_eq n "0" then units "给所有在线访客发送消息" else units "与 " ++ (units n ++ units " 对话");
    }

unfoldable pub fetch_once : String → Console → Console
fetch_once n c =
    if contains n c.users_fetched
    then c
    else (let d : Console = get_message n c in
        record d { users_fetched = d.users_fetched ++ n ∷ [] })

module _ (get_pipe : Option String → Option String) where
  -- `userOn`
  unfoldable pub user_on : String → String → Console → Console
  user_on n pubid c =
      let was_there : Bool = has_user n c in
      let d : Console = record c {
        tabs =
            update n (λ u. record u { is_off = false; is_on = true; pubid = pubid })
              (node_user n true c.tabs);
        users_on = c.users_on ++ n ∷ [];
        current_pipe = if str_eq c.c_user_id n then get_pipe (some pubid) else c.current_pipe;
        users_new = if was_there then c.users_new else c.users_new ++ n ∷ [];
      } in
      record d { tabs = post_user_dirty n d.tabs }

  -- `pubid && pubid.length` and so on.
  abbrev pipe_of : String → UserNode → Console → Option String
  pipe_of n u c =
      if str_eq u.pubid ""
      then (if str_eq n "0" then get_pipe c.group_pubid else none)
      else get_pipe (some u.pubid)

  -- `openChat`: a click on the node of a name, which has to be there.
  unfoldable pub open_chat : String → Console → Console
  open_chat n c = elim (find_place (named n) c.tabs) [
    | none ↦ c
    | some w ↦
        let d : Console = fetch_once n (enter n (leave_current c)) in
        record d { current_pipe = pipe_of n w.node d }
  ]
