-- ===== src/Chat/Render.antt =====
-- Messages as the two chat scripts print them.
use cmoon.Base.{String, [], ◌∷◌, ◌++◌, Option, none, some, str_eq, if◌then◌else◌, Text, units}
use cmoon.Chat.Uri.{◌>>=◌, decode_uri}
use cmoon.Chat.Tags.{strip_tags}

-- The fields of `raw.data` that are printed; `none` is `undefined`.
pub record Payload : Type 0 where
  pub msg : Option Text
  pub url : Option Text
  pub title : Option Text
  pub ref : Option Text
  pub ip : Option Text

-- `{from, to, type, tm, data}`
pub record Message : Type 0 where
  pub sender : String
  pub receiver : String
  pub kind : String
  pub tm : Text
  pub payload : Payload

abbrev pub no_payload : Payload
no_payload = record { msg = none; url = none; title = none; ref = none; ip = none }

-- A field where a text is wanted.
abbrev pub to_text : Option Text → Text
to_text none = units "undefined"
to_text (some s) = s

-- `if (data.ref)`: an empty text is false.
abbrev referrer : Option Text → Option Text
referrer none = some []
referrer (some []) = some []
referrer (some (c ∷ s)) = do d ← decode_uri (c ∷ s); some (units "通过 " ++ d)

unfoldable pub page_link : Text → Text → Text
page_link url title =
    units "<a target=\"_blank\" href=\"" ++ (url ++ (units "\">" ++ (title ++ units "</a>")))

-- `_strAction` of the console: every entry of the table is made before one is taken, and one that
-- is missing prints as nothing.
unfoldable pub console_action : String → Payload → Option Text
unfolding page_link
console_action kind d = do
  sref ← referrer d.ref
  text ← decode_uri (to_text d.msg)
  url ← decode_uri (to_text d.url)
  title ← decode_uri (to_text d.title)
  let msg = strip_tags text
  some (
      if str_eq kind "join"
      then sref ++ (units " 来到本站, 访问了页面 " ++ page_link url title)
      else if str_eq kind "visit"
      then units "打开了页面 " ++ page_link url title
      else if str_eq kind "left"
      then units "离开了本站"
      else if str_eq kind "send"
      then msg
      else if str_eq kind "msg"
      then units "留言说： " ++ msg
      else [])

-- `_strAction` of the visitor's box.
unfoldable pub visitor_action : String → Payload → Option Text
visitor_action kind d = do
  text ← decode_uri (to_text d.msg)
  let msg = strip_tags text
  some (if str_eq kind "send" then msg else if str_eq kind "msg" then units "留言说： " ++ msg else [])

-- The markup of `_strMsg`, the same in both scripts.
unfoldable pub item : String → Text → Text → Text → Text
item kind name tm content =
    units "<div class=\"item-"
    ++ (units kind
        ++ (units "\"><span class=\"item-name\">"
            ++ (name
                ++ (units "</span><span class=\"item-time\">"
                    ++ (tm
                        ++ (units "</span><span class=\"item-content\">"
                            ++ (content ++ units "</span></div>")))))))

-- `_strMsg`: `me` is the name that prints as 我.
unfoldable pub str_msg : (String → Payload → Option Text) → String → Message → Option Text
unfolding item
str_msg action me m = do
  name ← decode_uri (if str_eq m.sender me then units "我" else units m.sender)
  content ← action m.kind m.payload
  some (item m.kind name m.tm content)
