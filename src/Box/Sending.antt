-- ===== src/Box/Sending.antt =====
-- What `msgSend` of the visitor's box sends and prints.
use cmoon.Base.{
  ◌<◌, ◌≤◌, String, ◌≡◌, refl, ◌∙◌, ◌&&◌, List, [], ◌∷◌, ◌++◌, none, some, ltb, leb, length,
  if◌then◌else◌, Text, units, Option-cases, inl, inr, arith,
}
use mathlib.Core.Option
use mathlib.Core.List.{append-nil}
use cmoon.Chat.Uri.{decode_uri}
use cmoon.Chat.Tags.{strip_tags}
use cmoon.Chat.Render.{item, visitor_action, no_payload}
use cmoon.Chat.Own.{str_msg-own}
use cmoon.Box.Talk.{
  Talk, Outgoing, lcs_msg, or_else, box_msg, own_message, send_request, deliver, sound_remind,
  msg_send, restore_hint, admin_on,
}

own_action :
    (s : Text)
    → visitor_action "send" (record no_payload { msg = some s })
      ≡ Option.map strip_tags (decode_uri s)
unfolding visitor_action
own_action s = elim (Option-cases (decode_uri s)) [ inl e ↦ rw e refl | inr (t, e) ↦ rw e refl ]

-- The markup of a message of the visitor's own, whose text decodes to `s`.
abbrev pub own_item : Text → Text → Text
own_item tm s = item "send" (units "我") tm (strip_tags s)

box_msg-own_message :
    (t : Talk) (tm : Text)
    → box_msg t (own_message tm t) ≡ Option.map (own_item tm) (decode_uri t.input)
unfolding box_msg own_message
box_msg-own_message t tm = elim (Option-cases (decode_uri t.input)) [
  | inl e ↦ str_msg-own visitor_action (own_message tm t) _ (own_action t.input) ∙ rw e refl
  | inr (s, e) ↦ str_msg-own visitor_action (own_message tm t) _ (own_action t.input) ∙ rw e refl
]

-- What the key is to send: one request, if the text decodes and has from 1 to 256 units, and none
-- otherwise.
abbrev pub expected : Talk → List Outgoing
expected t = elim (decode_uri t.input) [
  | none ↦ []
  | some s ↦
      if ltb 0 (length t.input) && leb (length t.input) 256 then send_request t t.input ∷ [] else []
]

-- What it is to print, by the same rule.
abbrev pub printed : Text → Talk → List Text
printed tm t = elim (decode_uri t.input) [
  | none ↦ []
  | some s ↦ if ltb 0 (length t.input) && leb (length t.input) 256 then own_item tm s ∷ [] else []
]

-- On every branch, `msgSend` of the visitor sends what is expected and nothing else, and prints what
-- is expected, in the class `send`, and nothing else.
visitor_msg_send :
    (tm : Text) (t : Talk)
    → let d = (msg_send tm t).0 in
      (d.requests ≡ t.requests ++ expected t) × (d.data_box ≡ t.data_box ++ printed tm t)
unfolding msg_send deliver sound_remind
visitor_msg_send tm t = elim (Option-cases (decode_uri t.input)) [
  | inl e ↦
      ground (arith, e, box_msg-own_message t tm, append-nil t.requests, append-nil t.data_box)
  | inr (s, e) ↦
      ground (arith, e, box_msg-own_message t tm, append-nil t.requests, append-nil t.data_box)
]

-- While no operator is on line, a message that is sent is a request to keep it, and it is printed as
-- a message that was delivered, without the words for a kept one.
offline_prints_send :
    {s : Text} (tm : Text) (t : Talk)
    → t.admin ≡ none
    → decode_uri t.input ≡ some s
    → 0 < length t.input
    → length t.input ≤ 256
    → let d = (msg_send tm t).0 in
      (d.requests ≡ t.requests ++ lcs_msg (or_else t.aname t.pname) t.input ∷ [])
      × (d.data_box ≡ t.data_box ++ item "send" (units "我") tm (strip_tags s) ∷ [])
unfolding send_request
offline_prints_send tm t off e some_text short =
    let both = visitor_msg_send tm t in ground (arith, both, e, off)

-- A message that is too long, an operator who comes on line, and then the timer of the warning: the
-- hint reads as before the operator came.
restore_hint-admin_on :
    {s : Text} (tm : Text) (a : String) (t : Talk)
    → decode_uri t.input ≡ some s
    → 256 < length t.input
    → t.restores ≡ []
    → let d = restore_hint (admin_on a (msg_send tm t).0) in (d.hint ≡ t.hint) × (d.admin ≡ some a)
unfolding msg_send restore_hint admin_on sound_remind
restore_hint-admin_on tm a t e long none_left = ground (arith, e, box_msg-own_message t tm)
