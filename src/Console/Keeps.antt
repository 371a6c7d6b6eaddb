-- ===== src/Console/Keeps.antt =====
-- The handlers keep one visitor at a time in focus: which node is highlighted, which box is shown.
use cmoon.Base.{
  String, ◌≡◌, refl, Bool, true, false, not, ◌&&◌, List, [], ◌∷◌, ◌++◌, All, str_eq, if◌then◌else◌,
  Text, eq_iff, Option-cases, Bool-cases, inl, inr, arith,
}
use cmoon.Chat.Render.{Message}
use cmoon.Console.{
  Console, MsgBox, node_msg, update_box, append_data, prepend_recent, sound_remind, has_box,
  ensure_user, console_msg, scroll_down,
}
use cmoon.Console.Events.{on_recently, on_data, announce, mark_dirty}
use cmoon.Console.Focus.{InFocus, update-InFocus, node_user-InFocus, post_user_dirty-InFocus}

-- A box that is shown is the current visitor's.
abbrev pub ShownIs : String → MsgBox → Type 0
ShownIs cur b = (b.is_shown && not (str_eq cur b.uname)) ≡ false

pub record IsFocused (c : Console) : Type 0 where
  pub nodes_ok : InFocus c.c_user_id c.tabs
  pub boxes_ok : All (ShownIs c.c_user_id) c.boxes

All-snoc :
    (cur : String) (bs : List MsgBox) (b : MsgBox)
    → All (ShownIs cur) bs
    → ShownIs cur b
    → All (ShownIs cur) (bs ++ b ∷ [])
All-snoc cur [] b h k = (k, tt)
All-snoc cur (x ∷ bs) b h k = (h.0, All-snoc cur bs b h.1 k)

pub All-update_box :
    (cur n : String) (f : MsgBox → MsgBox) (bs : List MsgBox)
    → ((b : MsgBox) → ShownIs cur b → b.uname ≡ n → ShownIs cur (f b))
    → All (ShownIs cur) bs
    → All (ShownIs cur) (update_box n f bs)
unfolding update_box
All-update_box cur n f [] k h = tt
All-update_box cur n f (b ∷ bs) k h = elim (Bool-cases (str_eq b.uname n)) [
  | inl e ↦ rw e (k b h.0 ((eq_iff b.uname n).0 e), All-update_box cur n f bs k h.1)
  | inr e ↦ rw e (h.0, All-update_box cur n f bs k h.1)
]

pub if_keeps {ℓ κ} :
    {A : Type ℓ} (P : A → Type κ) (b : Bool) {x y : A} → P x → P y → P (if b then x else y)
if_keeps P true p q = p
if_keeps P false p q = q

new_box_ok : (b : Bool) → (b && not b) ≡ false
new_box_ok b = ground arith

pub node_msg-IsFocused : (n : String) (c : Console) → IsFocused c → IsFocused (node_msg n c)
unfolding node_msg
node_msg-IsFocused n c v = if_keeps IsFocused (has_box n c.boxes) v (record {
  nodes_ok = v.nodes_ok;
  boxes_ok = All-snoc c.c_user_id c.boxes _ v.boxes_ok (new_box_ok (str_eq c.c_user_id n));
})

pub append_data-IsFocused :
    (n : String) (h : Text) (c : Console) → IsFocused c → IsFocused (append_data n h c)
unfolding append_data
append_data-IsFocused n h c v = record {
  nodes_ok = v.nodes_ok;
  boxes_ok = All-update_box c.c_user_id n _ c.boxes (λ b k e. k) v.boxes_ok;
}

pub prepend_recent-IsFocused :
    (n : String) (h : Text) (c : Console) → IsFocused c → IsFocused (prepend_recent n h c)
unfolding prepend_recent
prepend_recent-IsFocused n h c v = record {
  nodes_ok = v.nodes_ok;
  boxes_ok = All-update_box c.c_user_id n _ c.boxes (λ b k e. k) v.boxes_ok;
}

pub ensure_user-IsFocused : (n : String) (c : Console) → IsFocused c → IsFocused (ensure_user n c)
unfolding ensure_user
ensure_user-IsFocused n c v = record {
  nodes_ok = node_user-InFocus c.c_user_id n c.tabs v.nodes_ok;
  boxes_ok = v.boxes_ok;
}

pub sound_remind-IsFocused : (k : String) (c : Console) → IsFocused c → IsFocused (sound_remind k c)
unfolding sound_remind
sound_remind-IsFocused k c v =
    if_keeps IsFocused c.sound_on (record { nodes_ok = v.nodes_ok; boxes_ok = v.boxes_ok }) v

scroll_down-IsFocused : (c : Console) → IsFocused c → IsFocused (scroll_down c)
scroll_down-IsFocused c v = record { nodes_ok = v.nodes_ok; boxes_ok = v.boxes_ok }

announce-IsFocused : (m : Message) (c : Console) → IsFocused c → IsFocused (announce m c)
unfolding announce
announce-IsFocused m c v =
    let joined = sound_remind-IsFocused "login" c v in
    if_keeps IsFocused (str_eq m.kind "send") (sound_remind-IsFocused "receive" c v) (
      if_keeps IsFocused (str_eq m.kind "join")
        (record { nodes_ok = joined.nodes_ok; boxes_ok = joined.boxes_ok })
        (if_keeps IsFocused (str_eq m.kind "left") (sound_remind-IsFocused "logout" c v) v))

mark_dirty-IsFocused : (n : String) (c : Console) → IsFocused c → IsFocused (mark_dirty n c)
unfolding mark_dirty
mark_dirty-IsFocused n c v = if_keeps IsFocused (str_eq c.c_user_id n) v (record {
  nodes_ok =
      post_user_dirty-InFocus c.c_user_id n _
        (update-InFocus c.c_user_id n _ (λ u. refl) c.tabs (λ ne u k. k) v.nodes_ok);
  boxes_ok = v.boxes_ok;
})

pub on_data-IsFocused : (m : Message) (c : Console) → IsFocused c → IsFocused (on_data m c).0
unfolding on_data
on_data-IsFocused m c v =
    let made =
      node_msg-IsFocused m.sender (ensure_user m.sender c) (ensure_user-IsFocused m.sender c v) in
    elim (Option-cases (console_msg (node_msg m.sender (ensure_user m.sender c)) m)) [
      | inl e ↦ rw (e, on_data) made
      | inr (html, e) ↦
          let marked =
            append_data-IsFocused m.sender html _
              (mark_dirty-IsFocused m.sender _ (announce-IsFocused m _ made)) in
          let d : Console =
            append_data m.sender html
              (mark_dirty m.sender (announce m (node_msg m.sender (ensure_user m.sender c)))) in
          rw (e, on_data)
            (if_keeps IsFocused (str_eq d.c_user_id m.sender) (scroll_down-IsFocused d marked)
              marked)
    ]

pub on_recently-IsFocused :
    (m : Message) (c : Console) → IsFocused c → IsFocused (on_recently m c).0
unfolding on_recently
on_recently-IsFocused m c v =
    let n : String = if str_eq m.sender c.aname then m.receiver else m.sender in
    let made = node_msg-IsFocused n (ensure_user n c) (ensure_user-IsFocused n c v) in
    elim (Option-cases (console_msg (node_msg n (ensure_user n c)) m)) [
      | inl e ↦ rw (e, on_recently) made
      | inr (html, e) ↦ rw (e, on_recently) (prepend_recent-IsFocused n html _ made)
    ]
