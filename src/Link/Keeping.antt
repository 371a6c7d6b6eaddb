-- ===== src/Link/Keeping.antt =====
-- What the console's handlers leave of the operator and of the list of visitors on line.
use cmoon.Base.{
  String, ◌≡◌, refl, true, false, List, [], ◌∷◌, str_eq, contains, if◌then◌else◌, Text, units, ap,
  ◌∙◌, Option-cases, inl, inr, arith,
}
use cmoon.Chat.Tags.{has}
use cmoon.Chat.Render.{Message, no_payload}
use cmoon.Console.{
  Console, node_msg, ensure_user, append_data, prepend_recent, sound_remind, console_msg,
  remove_first, splice_name,
}
use cmoon.Console.Events.{
  on_recently, on_data, announce, mark_dirty, dear_user, dear_keys, dear_users, Dear, keys, name,
  other, user_off,
}
use cmoon.Console.Sending.{node_msg_keeps}
use cmoon.Console.Leaving.{user_off_lem}
use cmoon.Visit.{Raw, data_message}
use cmoon.Link.{recent_message, raw_recently, raw_data}

-- The operator and the list are the same.
abbrev pub Keeps : Console → Console → Type 0
Keeps c d = (d.aname ≡ c.aname) × (d.users_on ≡ c.users_on)

node_msg-Keeps : (n : String) (c : Console) → Keeps c (node_msg n c)
node_msg-Keeps n c =
    let k = node_msg_keeps n c in
    (ap (λ (d : Console). d.aname) k, ap (λ (d : Console). d.users_on) k)

on_recently-Keeps : (m : Message) (c : Console) → Keeps c (on_recently m c).0
unfolding on_recently prepend_recent ensure_user
on_recently-Keeps m c =
    let n : String = if str_eq m.sender c.aname then m.receiver else m.sender in
    let d : Console = node_msg n (ensure_user n c) in
    elim (Option-cases (console_msg d m)) [
      | inl e ↦ ground (arith, e, node_msg-Keeps n (ensure_user n c))
      | inr (html, e) ↦ ground (arith, e, node_msg-Keeps n (ensure_user n c))
    ]

announce-Keeps : (m : Message) (c : Console) → Keeps c (announce m c)
unfolding announce sound_remind
announce-Keeps m c = ground arith

mark_dirty-Keeps : (n : String) (c : Console) → Keeps c (mark_dirty n c)
unfolding mark_dirty
mark_dirty-Keeps n c = ground arith

on_data-Keeps : (m : Message) (c : Console) → Keeps c (on_data m c).0
unfolding on_data append_data ensure_user
on_data-Keeps m c =
    let n : String = m.sender in
    let d : Console = node_msg n (ensure_user n c) in
    elim (Option-cases (console_msg d m)) [
      | inl e ↦ ground (arith, e, node_msg-Keeps n (ensure_user n c))
      | inr (html, e) ↦ ground (
        arith,
        e,
        node_msg-Keeps n (ensure_user n c),
        announce-Keeps m d,
        mark_dirty-Keeps n (announce m d),
      )
    ]

dear_user-Keeps : (n : String) (c : Console) → Keeps c (dear_user n c)
unfolding dear_user ensure_user
dear_user-Keeps n c = ground arith

dear_keys-Keeps : (ns : List String) (c : Console) → Keeps c (dear_keys ns c)
unfolding dear_keys
dear_keys-Keeps [] c = (refl, refl)
dear_keys-Keeps (n ∷ ns) c =
    let (a, u) = dear_user-Keeps n c in
    let (a', u') = dear_keys-Keeps ns (dear_user n c) in (a' ∙ a, u' ∙ u)

pub dear_users-Keeps : (ds : List Dear) (c : Console) → Keeps c (dear_users ds c)
unfolding dear_users
dear_users-Keeps [] c = (refl, refl)
dear_users-Keeps (keys ns ∷ ds) c =
    let (a, u) = dear_keys-Keeps ns c in
    let (a', u') = dear_users-Keeps ds (dear_keys ns c) in (a' ∙ a, u' ∙ u)
dear_users-Keeps (name n ∷ ds) c =
    let (a, u) = dear_user-Keeps n c in
    let (a', u') = dear_users-Keeps ds (dear_user n c) in (a' ∙ a, u' ∙ u)
dear_users-Keeps (other ∷ ds) c = dear_users-Keeps ds c

pub raw_recently-Keeps : (raw : Raw) (c : Console) → Keeps c (raw_recently raw c).0
unfolding raw_recently
raw_recently-Keeps raw c = elim (Option-cases raw.sender) [
  | inl e ↦ rw (e, raw_recently) (ground arith)
  | inr (s, e) ↦ rw (e, raw_recently) (ground (arith, on_recently-Keeps (recent_message s raw) c))
]

pub raw_data-Keeps : (raw : Raw) (c : Console) → Keeps c (raw_data raw c).0
unfolding raw_data
raw_data-Keeps raw c = elim (Option-cases raw.sender) [
  | inl e ↦ rw (e, raw_data) (ground arith)
  | inr (s, e) ↦ rw (e, raw_data) (ground (arith, on_data-Keeps (data_message s raw) c))
]

pub user_off-aname : (n : String) (tm : Text) (c : Console) → (user_off n tm c).0.aname ≡ c.aname
unfolding user_off
user_off-aname n tm c =
    let m : Message = record {
      sender = n;
      receiver = "";
      kind = "left";
      tm = tm;
      payload = no_payload;
    } in
    elim (Option-cases (console_msg c m)) [
      | inl e ↦ ground (arith, e)
      | inr (html, e) ↦ ground (arith, e)
    ]

pub user_off-listed :
    (n : String) (tm : Text) (c : Console)
    → has b'%' (units n) ≡ false
    → contains n c.users_on ≡ true
    → (user_off n tm c).0.users_on ≡ remove_first n c.users_on
unfolding splice_name
user_off-listed n tm c h listed = (user_off_lem n tm c h).1 ∙ rw (splice_name, listed) refl
