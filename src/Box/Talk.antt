-- ===== src/Box/Talk.antt =====
-- What the visitor's box says and prints, and the requests that it sends, bmoon.chat.js.
use cmoon.Base.{
  ℕ, suc, String, Bool, false, not, List, [], ◌∷◌, ◌++◌, Option, none, some, str_eq, ltb, length,
  if◌then◌else◌, Text, units, Exit, finished, uri_error,
}
use cmoon.Chat.Render.{Message, no_payload, visitor_action, str_msg}
use cmoon.Box.{Ui, arrive}

-- What leaves the browser.
pub data Outgoing : Type 0 where
  lcs_send : String → Text → Outgoing
  lcs_msg : String → Text → Outgoing
  lcs_visit : Option String → String → Outgoing
  json_msg : Option String → String → Outgoing

-- The rest of `bmoon.chat` and what of the client library it reads: `aname` is `opts.aname`, `admin`
-- the `aname` of `adminuser`, `current_pipe` the public id of `lcsCurrentPipe`. `restores` are the
-- texts that timers will put back into the hint, the next one first.
pub record Talk : Type 0 where
  pub ui : Ui
  pub uname : String
  pub pname : String
  pub aname : Option String
  pub admin : Option String
  pub current_pipe : Option String
  pub input : Text
  pub hint : Text
  pub restores : List Text
  pub recently : List Text
  pub data_box : List Text
  pub sound_on : Bool
  pub is_msie : Bool
  pub reminder_src : Text
  pub plays : ℕ
  pub requests : List Outgoing

-- `if (name)`
abbrev pub is_set : Option String → Bool
is_set none = false
is_set (some s) = not (str_eq s "")

abbrev pub or_else : Option String → String → String
or_else none t = t
or_else (some s) t = if str_eq s "" then t else s

abbrev pub scroll_ui : Ui → Ui
scroll_ui u = record u { scrolls = suc u.scrolls }

-- `soundRemind(type)`
unfoldable pub sound_remind : String → Talk → Talk
sound_remind kind t =
    if t.sound_on
    then record t {
      reminder_src = units "http://www.bomdoo.com/obj/audio/" ++ (units kind ++ units ".wav");
      plays = if t.is_msie then t.plays else suc t.plays;
    }
    else t

-- `_strMsg`
unfoldable pub box_msg : Talk → Message → Option Text
box_msg t m = str_msg visitor_action t.uname m

abbrev pub max_length : ℕ
max_length = 256

unfoldable pub too_long : Text
too_long = units "聊天信息不要超过 256 个字。"

-- `adminuser` is an object also when no operator is on line, so that the kind is always `send`.
unfoldable pub own_message : Text → Talk → Message
own_message tm t = record {
  sender = t.uname;
  receiver = "";
  kind = "send";
  tm = tm;
  payload = record no_payload { msg = some t.input };
}

unfoldable pub send_request : Talk → Text → Outgoing
send_request t mv = elim t.current_pipe [
  | none ↦ lcs_msg (or_else t.aname t.pname) mv
  | some pipe ↦ if is_set t.admin then lcs_send pipe mv else lcs_msg (or_else t.aname t.pname) mv
]

-- The part of `msgSend` behind the two length tests.
unfoldable pub deliver : Text → Talk → Talk
deliver html t = sound_remind "send" (record t {
  input = [];
  data_box = t.data_box ++ html ∷ [];
  ui = scroll_ui t.ui;
  requests = t.requests ++ send_request t t.input ∷ [];
})

unfoldable pub msg_send : Text → Talk → Talk × Exit
msg_send tm t = elim (box_msg t (own_message tm t)) [
  | none ↦ (t, uri_error)
  | some html ↦
      if ltb 0 (length t.input)
      then (if ltb max_length (length t.input)
          then (record t { hint = too_long; restores = t.restores ++ t.hint ∷ [] }, finished)
          else (deliver html t, finished))
      else (t, finished)
]

-- The timer of the warning.
unfoldable pub restore_hint : Talk → Talk
restore_hint t = elim t.restores [ [] ↦ t | s ∷ rest ↦ record t { hint = s; restores = rest } ]

-- What the hint reads for the operator who is on line, if one is.
unfoldable pub hint_of : Option String → Text
hint_of none = units "客服当前离线，留言功能开启。"
hint_of (some a) = units a ++ units " 当前在线。"

-- `adminOn` and `adminOff`
unfoldable pub admin_on : String → Talk → Talk
admin_on a t = sound_remind "login" (record t { hint = hint_of (some a); admin = some a })

unfoldable pub admin_off : Talk → Talk
admin_off t = record t { hint = hint_of none; admin = none }

-- `onData`
unfoldable pub on_data : Message → Talk → Talk × Exit
on_data m t = elim (box_msg t m) [
  | none ↦ (t, uri_error)
  | some html ↦ (
    sound_remind "receive" (record t { data_box = t.data_box ++ html ∷ []; ui = arrive t.ui }),
    finished,
  )
]

-- `onRecently`
unfoldable pub on_recently : Message → Talk → Talk × Exit
on_recently m t = elim (box_msg t m) [
  | none ↦ (t, uri_error)
  | some html ↦ (record t { recently = html ∷ t.recently; ui = scroll_ui t.ui }, finished)
]
