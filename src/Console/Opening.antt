-- ===== src/Console/Opening.antt =====
-- Opening a chat, sending, and the coming and going of visitors keep one visitor at a time in focus.
use cmoon.Base.{
  String, ◌≡◌, refl, ap, true, false, List, [], ◌∷◌, map, Option, suc, All, length-map, str_eq,
  contains, ltb, length, Text, eq_iff, Option-cases, Bool-cases, inl, inr, arith,
}
use cmoon.Chat.Render.{Message, no_payload}
use cmoon.Roster.{UserNode, named, find_place, update}
use cmoon.Roster.Nodes.{nodes}
use cmoon.Roster.Changes.{nodes-update}
use cmoon.Console.{Console, MsgBox, Exit, node_msg, update_box, ensure_user, console_msg}
use cmoon.Console.Messages.{
  send_input, deliver, get_message, own_message, next_page, wants_page, max_length,
}
use cmoon.Console.Events.{dear_user, user_off, user_on, leave_current, enter, fetch_once, open_chat}
use cmoon.Console.Focus.{
  InFocus, IsPlain, update-InFocus, node_user-InFocus, post_user_dirty-InFocus,
}
use cmoon.Console.Sending.{node_msg_keeps}
use cmoon.Console.Keeps.{
  IsFocused, ShownIs, if_keeps, All-update_box, node_msg-IsFocused, append_data-IsFocused,
  ensure_user-IsFocused, sound_remind-IsFocused,
}

deliver-IsFocused : (h : Text) (c : Console) → IsFocused c → IsFocused (deliver h c)
unfolding deliver
deliver-IsFocused h c v =
    let shown =
      append_data-IsFocused c.c_user_id h (record c { input = [] })
        (record { nodes_ok = v.nodes_ok; boxes_ok = v.boxes_ok }) in
    sound_remind-IsFocused "send" _
      (record { nodes_ok = shown.nodes_ok; boxes_ok = shown.boxes_ok })

pub send_input-IsFocused : (tm : Text) (c : Console) → IsFocused c → IsFocused (send_input tm c).0
unfolding send_input
send_input-IsFocused tm c v = elim (Option-cases (console_msg c (own_message c tm))) [
  | inl e ↦ rw (e, send_input) v
  | inr (html, e) ↦
      rw (e, send_input)
        (if_keeps (λ (r : Console × Exit). IsFocused r.0) (ltb 0 (length c.input))
          (if_keeps (λ (r : Console × Exit). IsFocused r.0) (ltb max_length (length c.input))
            (record { nodes_ok = v.nodes_ok; boxes_ok = v.boxes_ok }) (deliver-IsFocused html c v))
          v)
]

pub get_message-IsFocused : (n : String) (c : Console) → IsFocused c → IsFocused (get_message n c)
unfolding get_message
get_message-IsFocused n c v =
    let made = node_msg-IsFocused n c v in
    if_keeps IsFocused (wants_page n (next_page n c) (node_msg n c))
      (record { nodes_ok = made.nodes_ok; boxes_ok = made.boxes_ok }) made

fetch_once-IsFocused : (n : String) (c : Console) → IsFocused c → IsFocused (fetch_once n c)
unfolding fetch_once
fetch_once-IsFocused n c v =
    let asked = get_message-IsFocused n c v in
    if_keeps IsFocused (contains n c.users_fetched) v
      (record { nodes_ok = asked.nodes_ok; boxes_ok = asked.boxes_ok })

pub dear_user-IsFocused : (n : String) (c : Console) → IsFocused c → IsFocused (dear_user n c)
unfolding dear_user
dear_user-IsFocused n c v =
    let made = ensure_user-IsFocused n c v in
    let d : Console = ensure_user n c in
    let marked = if_keeps IsFocused (str_eq n d.c_user_id) {x = d} made (record {
      nodes_ok =
          update-InFocus d.c_user_id n (λ u. record u { is_dirty = true }) (λ u. refl) d.tabs
            (λ ne u k. k) made.nodes_ok;
      boxes_ok = made.boxes_ok;
    }) in
    record { nodes_ok = post_user_dirty-InFocus _ n _ marked.nodes_ok; boxes_ok = marked.boxes_ok }

-- Nobody is in focus.
record IsCleared (c : Console) : Type 0 where
  unique : (cur : String) → InFocus cur c.tabs
  hidden : All (λ b. b.is_shown ≡ false) c.boxes

All-map-IsPlain :
    (f : UserNode → UserNode) (us : List UserNode)
    → ((u : UserNode) → IsPlain (f u))
    → All IsPlain (map f us)
All-map-IsPlain f [] k = tt
All-map-IsPlain f (u ∷ us) k = (k u, All-map-IsPlain f us k)

leave_boxes :
    (cur : String) (bs : List MsgBox)
    → All (ShownIs cur) bs
    → All (λ b. b.is_shown ≡ false) (update_box cur (λ b. record b { is_shown = false }) bs)
unfolding update_box
leave_boxes cur [] h = tt
leave_boxes cur (b ∷ bs) (h, hs) =
    (ground (arith, eq_iff b.uname cur, eq_iff cur b.uname), leave_boxes cur bs hs)

leave_current-IsCleared : (c : Console) → IsFocused c → IsCleared (leave_current c)
unfolding leave_current
leave_current-IsCleared c v =
    let f : UserNode → UserNode = λ u. record u { is_cur = false; clicks = suc u.clicks } in
    record {
      unique = λ cur. record {
        unique = λ m. ground (
          arith,
          nodes-update c.c_user_id f (λ u. refl) m c.tabs,
          length-map (nodes m c.tabs) f,
          v.nodes_ok.unique m,
        );
        others = λ m ne. elim (Bool-cases (str_eq m c.c_user_id)) [
          | inl same ↦
              rw (nodes-update c.c_user_id f (λ u. refl) m c.tabs, same)
                (All-map-IsPlain f (nodes m c.tabs) (λ u. refl))
          | inr differ ↦
              rw (nodes-update c.c_user_id f (λ u. refl) m c.tabs, differ)
                (v.nodes_ok.others m (λ e. ground (arith, e, differ, eq_iff m c.c_user_id)))
        ];
      };
      hidden = leave_boxes c.c_user_id c.boxes v.boxes_ok;
    }

hidden-ShownIs :
    (n : String) (bs : List MsgBox) → All (λ b. b.is_shown ≡ false) bs → All (ShownIs n) bs
hidden-ShownIs n [] h = tt
hidden-ShownIs n (b ∷ bs) (h, hs) = (rw h refl, hidden-ShownIs n bs hs)

enter-IsFocused : (n : String) (c : Console) → IsCleared c → IsFocused (enter n c)
unfolding enter
enter-IsFocused n c v =
    let f : UserNode → UserNode = λ u. record u { is_dirty = false; is_cur = true; clicks = 0 } in
    let turned : Console = record c { c_user_id = n; tabs = update n f c.tabs } in
    let made = node_msg-IsFocused n turned (record {
      nodes_ok = update-InFocus n n f (λ u. refl) c.tabs (λ ne u k. absurd (ne refl)) (v.unique n);
      boxes_ok = hidden-ShownIs n c.boxes v.hidden;
    }) in
    record {
      nodes_ok = made.nodes_ok;
      boxes_ok =
          All-update_box _ n (λ b. record b { is_shown = true }) _
            (λ b k e. ground (
              arith,
              e,
              ap (λ (d : Console). d.c_user_id) (node_msg_keeps n turned),
              eq_iff (node_msg n turned).c_user_id b.uname,
            ))
            made.boxes_ok;
    }

pub open_chat-IsFocused :
    (get_pipe : Option String → Option String) (n : String) (c : Console)
    → IsFocused c
    → IsFocused (open_chat get_pipe n c)
unfolding open_chat
open_chat-IsFocused get_pipe n c v = elim (Option-cases (find_place (named n) c.tabs)) [
  | inl e ↦ rw (e, open_chat) v
  | inr (w, e) ↦
      let done =
        fetch_once-IsFocused n _
          (enter-IsFocused n (leave_current c) (leave_current-IsCleared c v)) in
      rw (e, open_chat) (record { nodes_ok = done.nodes_ok; boxes_ok = done.boxes_ok })
]

pub user_on-IsFocused :
    (get_pipe : Option String → Option String) (n pubid : String) (c : Console)
    → IsFocused c
    → IsFocused (user_on get_pipe n pubid c)
unfolding user_on
user_on-IsFocused get_pipe n pubid c v = record {
  nodes_ok = post_user_dirty-InFocus c.c_user_id n _ (
      update-InFocus c.c_user_id n _ (λ u. refl) _ (λ ne u k. k)
        (node_user-InFocus c.c_user_id n c.tabs v.nodes_ok));
  boxes_ok = v.boxes_ok;
}

pub user_off-IsFocused :
    (n : String) (tm : Text) (c : Console) → IsFocused c → IsFocused (user_off n tm c).0
unfolding user_off
user_off-IsFocused n tm c v =
    let m : Message = record {
      sender = n;
      receiver = "";
      kind = "left";
      tm = tm;
      payload = no_payload;
    } in
    elim (Option-cases (console_msg c m)) [
      | inl e ↦ rw (e, user_off) v
      | inr (html, e) ↦
          rw (e, user_off)
            (record {
              nodes_ok = update-InFocus c.c_user_id n _ (λ u. refl) c.tabs (λ ne u k. k) v.nodes_ok;
              boxes_ok = v.boxes_ok;
            })
    ]
