-- ===== src/Chat/Examples.antt =====
-- The message filter on concrete texts.
use cmoon.Base.{◌≡◌, ◌↔◌, refl, some, units}
use cmoon.Chat.Uri.{decode_uri}
use cmoon.Chat.Tags.{IsTagFree, strip_tags, strip_tags-eq_iff}

strips : strip_tags (units "a<b>c</b>d<") ≡ units "acd<"
unfolding strip_tags units
strips = refl

decodes : decode_uri (units "%E4%BD%A0+a%2fb") ≡ some (units "你+a/b")
unfolding decode_uri units
decodes = refl

strip_tags-eq_iff_example : (strip_tags (units "1 < 2") ≡ units "1 < 2") ↔ IsTagFree (units "1 < 2")
strip_tags-eq_iff_example = strip_tags-eq_iff (units "1 < 2")
