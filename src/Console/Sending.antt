-- ===== src/Console/Sending.antt =====
-- What `msgSend` sends, and what it says of a message that is too long.
use cmoon.Base.{
  ◌<◌, String, ◌≡◌, refl, ap, ◌∙◌, Bool, true, false, List, [], ◌∷◌, ◌++◌, Option, none, some, ltb,
  length, if◌then◌else◌, Text, units, contains, ◌&&◌, leb, Bool-cases, Option-cases, inl, inr,
  arith,
}
use cmoon.Chat.Uri.{decode_uri}
use cmoon.Chat.Uri.Escapes.{decode_uri_of_percent}
use cmoon.Chat.Render.{console_action, item, no_payload}
use cmoon.Chat.Own.{str_msg-own}
use cmoon.Chat.Tags.{strip_tags}
use mathlib.Core.Option
use mathlib.Core.List.{append-nil}
use cmoon.Console.{
  Console, MsgBox, Request, lcs_send, lcs_msg, has_box, Exit, finished, uri_error, node_msg,
  append_data, sound_remind, console_msg,
}
use cmoon.Console.Messages.{
  msg_send, send_input, own_message, send_kind, send_request, deliver, too_long, restore_stat,
}

pub undefined_decodes : decode_uri (units "undefined") ≡ some (units "undefined")
unfolding decode_uri units
undefined_decodes = refl

abbrev own_text : Bool → Text → Text
own_text on t = if on then strip_tags t else units "留言说： " ++ strip_tags t

own_action :
    (on : Bool) (s : Text)
    → console_action (if on then "send" else "msg") (record no_payload { msg = some s })
      ≡ Option.map (own_text on) (decode_uri s)
unfolding console_action
own_action true s = elim (Option-cases (decode_uri s)) [
  | inl e ↦ rw e refl
  | inr (t, e) ↦ rw (e, undefined_decodes) refl
]
own_action false s = elim (Option-cases (decode_uri s)) [
  | inl e ↦ rw e refl
  | inr (t, e) ↦ rw (e, undefined_decodes) refl
]

-- The operator's own message prints as 我, and only its text can fail to decode.
pub console_msg-own_message :
    (c : Console) (tm : Text)
    → console_msg c (own_message c tm)
      ≡ Option.map
          (item (send_kind c) (units "我") tm)
          (Option.map (own_text (contains c.c_user_id c.users_on)) (decode_uri c.input))
unfolding console_msg own_message
console_msg-own_message c tm =
    str_msg-own console_action (own_message c tm) _
      (own_action (contains c.c_user_id c.users_on) c.input)

-- The way of a text: over the pipe to a visitor who is on line, and else to be kept under the name.
abbrev pub routed : Bool → Option String → String → Text → Request
routed true (some pipe) n t = lcs_send pipe t
routed true none n t = lcs_msg n t
routed false p n t = lcs_msg n t

abbrev pub route_of : Console → Request
route_of c = routed (contains c.c_user_id c.users_on) c.current_pipe c.c_user_id c.input

send_request-routed : (c : Console) → send_request c c.input ≡ route_of c
unfolding send_request
send_request-routed c = ground arith

-- The requests that a click on the button is to make: one, if the text decodes and has from 1 to
-- 256 units, and none otherwise.
abbrev pub expected : Console → List Request
expected c = elim (decode_uri c.input) [
  | none ↦ []
  | some t ↦ if ltb 0 (length c.input) && leb (length c.input) 256 then route_of c ∷ [] else []
]

deliver-requests :
    (html : Text) (c : Console) → (deliver html c).requests ≡ c.requests ++ route_of c ∷ []
unfolding deliver sound_remind append_data
deliver-requests html c = ground (arith, send_request-routed c)

send_input-requests :
    (tm : Text) (c : Console) → (send_input tm c).0.requests ≡ c.requests ++ expected c
unfolding send_input
send_input-requests tm c = elim (Option-cases (decode_uri c.input)) [
  | inl e ↦ ground (arith, e, console_msg-own_message c tm, append-nil c.requests)
  | inr (t, e) ↦ ground (
    arith,
    e,
    console_msg-own_message c tm,
    append-nil c.requests,
    deliver-requests
        (item (send_kind c) (units "我") tm (own_text (contains c.c_user_id c.users_on) t)) c,
  )
]

pub node_msg_keeps :
    (n : String) (c : Console) → node_msg n c ≡ record c { boxes = (node_msg n c).boxes }
unfolding node_msg
node_msg_keeps n c = elim (Bool-cases (has_box n c.boxes)) [
  | inl e ↦ rw (e, node_msg) refl
  | inr e ↦ rw (e, node_msg) refl
]

-- On every branch, `msgSend` makes one request if the text decodes and has from 1 to 256 units, and
-- none otherwise: over the pipe if the visitor is on line and there is one, and else as a message
-- that is kept under the visitor's name.
pub msg_send-requests :
    (tm : Text) (c : Console) → (msg_send tm c).0.requests ≡ c.requests ++ expected c
unfolding msg_send
msg_send-requests tm c =
    rw (node_msg_keeps c.c_user_id c)
      (send_input-requests tm (record c { boxes = (node_msg c.c_user_id c).boxes }))

refused : (tm : Text) (c : Console) → decode_uri c.input ≡ none → send_input tm c ≡ (c, uri_error)
unfolding send_input
refused tm c e = ground (arith, e, console_msg-own_message c tm)

-- A message that ends in `%` raises an exception: nothing is sent, and it stays in the input.
pub msg_send_of_percent :
    (tm s : Text) (c : Console)
    → c.input ≡ s ++ b'%' ∷ []
    → let r = msg_send tm c in
      (r.1 ≡ uri_error) × (r.0.requests ≡ c.requests) × (r.0.input ≡ c.input)
unfolding msg_send
msg_send_of_percent tm s c e = rw (node_msg_keeps c.c_user_id c) (
    rw
      (refused tm (record c { boxes = (node_msg c.c_user_id c).boxes })
        (ap decode_uri e ∙ decode_uri_of_percent s))
      (refl, refl, refl))

-- What a message that is too long makes of the console.
abbrev warned : Console → Console
warned c = record c { stat = too_long; restores = c.restores ++ c.stat ∷ [] }

module _ {t : Text} (c : Console) (e : decode_uri c.input ≡ some t)
    (long : 256 < length c.input) where
  send_input-long : (tm : Text) → send_input tm c ≡ (warned c, finished)
  unfolding send_input
  send_input-long tm = ground (arith, e, console_msg-own_message c tm)

msg_send-long :
    {t : Text} (c : Console) (tm : Text)
    → decode_uri c.input ≡ some t
    → 256 < length c.input
    → (bs : List MsgBox) × ((msg_send tm c).0 ≡ warned (record c { boxes = bs }))
unfolding msg_send
msg_send-long c tm e long =
    let bs = (node_msg c.c_user_id c).boxes in
    (
      bs,
      rw (node_msg_keeps c.c_user_id c)
          (ap (λ (r : Console × Exit). r.0) (send_input-long (record c { boxes = bs }) e long tm)),
    )

-- One message that is too long: when the timer of its warning has run, `#im-stat` reads as before,
-- and no timer is left over.
restore_stat-msg_send :
    {t : Text} (c : Console) (tm : Text)
    → decode_uri c.input ≡ some t
    → 256 < length c.input
    → c.restores ≡ []
    → let d = restore_stat (msg_send tm c).0 in (d.stat ≡ c.stat) × (d.restores ≡ [])
unfolding restore_stat
restore_stat-msg_send c tm e long none_left =
    let (bs, sent) = msg_send-long c tm e long in rw (sent, none_left, restore_stat) (refl, refl)

-- Two such messages before the first timer: when both timers have run, the warning stands for good.
restore_stat_twice :
    {t : Text} (c : Console) (tm tm' : Text)
    → decode_uri c.input ≡ some t
    → 256 < length c.input
    → c.restores ≡ []
    → let d = restore_stat (restore_stat (msg_send tm' (msg_send tm c).0).0) in
      (d.stat ≡ too_long) × (d.restores ≡ [])
unfolding restore_stat
restore_stat_twice c tm tm' e long none_left =
    let (bs, sent) = msg_send-long c tm e long in
    let (bs', sent') = msg_send-long (warned (record c { boxes = bs })) tm' e long in
    rw (sent, sent', none_left, restore_stat) (refl, refl)
