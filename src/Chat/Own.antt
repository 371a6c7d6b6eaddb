-- ===== src/Chat/Own.antt =====
-- A message of one's own, as `_strMsg` prints it in both chat scripts.
use cmoon.Base.{String, ◌≡◌, refl, Option, none, some, str_eq_self, Text, units}
use mathlib.Core.Option
use cmoon.Chat.Uri.{decode_uri}
use cmoon.Chat.Render.{Message, Payload, item, str_msg}

pub me_decodes : decode_uri (units "我") ≡ some (units "我")
unfolding decode_uri units
me_decodes = refl

pub str_msg-own :
    (action : String → Payload → Option Text) (m : Message) (h : Option Text)
    → action m.kind m.payload ≡ h
    → str_msg action m.sender m ≡ Option.map (item m.kind (units "我") m.tm) h
unfolding str_msg
str_msg-own action m none e = rw (str_eq_self m.sender, me_decodes, e) refl
str_msg-own action m (some t) e = rw (str_eq_self m.sender, me_decodes, e) refl
