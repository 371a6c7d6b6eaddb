-- ===== src/Console/Messages.antt =====
-- Messages of bmoon.chatb.js: `msgSend` and its timer, and the pages of older messages,
-- `getMessage` and the callback of its request.
use cmoon.Base.{
  ℕ, zero, suc, ◌+◌, ◌*◌, String, Bool, true, List, [], ◌∷◌, ◌++◌, Option, none, some, contains,
  ltb, length, if◌then◌else◌, Text, units, decimal, put,
}
use cmoon.Chat.Render.{Message, no_payload}
use cmoon.Console.{
  Console, Request, lcs_send, lcs_msg, json_msg, Exit, finished, uri_error, ◌>>=◌, node_msg,
  append_data, prepend_recent, scroll_down, send, sound_remind, console_msg, number_at,
}

-- `_strMsgDivide(pg)`
unfoldable pub str_msg_divide : ℕ → Text
str_msg_divide pg = units "<div class=\"item-divide\">第 " ++ (decimal pg ++ units " 页历史消息</div>")

-- The longest message, and what the console says of a longer one.
abbrev pub max_length : ℕ
max_length = 256

unfoldable pub too_long : Text
too_long = units "聊天信息不要超过 256 个字。"

unfoldable pub send_kind : Console → String
send_kind c = if contains c.c_user_id c.users_on then "send" else "msg"

-- Over the current pipe if the visitor is on line and there is one, else as a message to be kept.
unfoldable pub send_request : Console → Text → Request
send_request c mv = elim c.current_pipe [
  | none ↦ lcs_msg c.c_user_id mv
  | some pipe ↦ if contains c.c_user_id c.users_on then lcs_send pipe mv else lcs_msg c.c_user_id mv
]

unfoldable pub own_message : Console → Text → Message
unfolding send_kind
own_message c tm = record {
  sender = c.aname;
  receiver = "";
  kind = send_kind c;
  tm = tm;
  payload = record no_payload { msg = some c.input };
}

-- The part of `msgSend` behind the two length tests.
unfoldable pub deliver : Text → Console → Console
deliver html c = sound_remind "send" (
    send (send_request c c.input)
      (scroll_down (append_data c.c_user_id html (record c { input = [] }))))

-- `msgSend` once the box of the current visitor is there.
unfoldable pub send_input : Text → Console → Console × Exit
send_input tm c = elim (console_msg c (own_message c tm)) [
  | none ↦ (c, uri_error)
  | some html ↦
      if ltb 0 (length c.input)
      then (if ltb max_length (length c.input)
          then (record c { stat = too_long; restores = c.restores ++ c.stat ∷ [] }, finished)
          else (deliver html c, finished))
      else (c, finished)
]

unfoldable pub msg_send : Text → Console → Console × Exit
msg_send tm c = send_input tm (node_msg c.c_user_id c)

-- The timer of the warning.
unfoldable pub restore_stat : Console → Console
restore_stat c = elim c.restores [ [] ↦ c | s ∷ rest ↦ record c { stat = s; restores = rest } ]

-- `usersLoadPage[name]`, or 0.
unfoldable pub next_page : String → Console → ℕ
next_page n c = elim (number_at n c.users_load_page) [ none ↦ 0 | some k ↦ k ]

-- `usersTotalMsg[name]` is no number, or a fifteenth of it is more than `pg`.
unfoldable pub wants_page : String → ℕ → Console → Bool
wants_page n pg c = elim (number_at n c.users_total_msg) [
  | none ↦ true
  | some total ↦ ltb (15 * pg) total
]

-- `getMessage`; its third argument is not used.
unfoldable pub get_message : String → Console → Console
unfolding next_page wants_page
get_message n c₀ =
    let pg : ℕ = next_page n c₀ in
    let c : Console = node_msg n c₀ in
    if wants_page n pg c then send (json_msg n c.aname (pg + 1)) c else c

-- The answer of `/json/msg`: whether `success` is 1 and `raws` an array, what `JSON.parse` makes of
-- each text of `raws` (`none` is `null`), and `ntt`.
pub record Answer (Raw : Type 0) : Type 0 where
  pub is_success : Bool
  pub raws : List (Option Raw)
  pub ntt : Option ℕ

abbrev pub note_total : String → Option ℕ → Console → Console
note_total n none c = c
note_total n (some zero) c = c
note_total n (some (suc k)) c = record c { users_total_msg = put n (suc k) c.users_total_msg }

unfoldable pub count_page : String → Console → Console
count_page n c = record c { users_load_page = put n (next_page n c + 1) c.users_load_page }

-- `call_raw` is the client library's: it runs the handler that is registered for a raw.
module _ {Raw : Type 0} (call_raw : Raw → Console → Console × Exit) where
  unfoldable pub call_raws : List (Option Raw) → Console → Console × Exit
  call_raws [] c = (c, finished)
  call_raws (none ∷ rs) c = call_raws rs c
  call_raws (some r ∷ rs) c = call_raw r c >>= call_raws rs

  -- The answer to the request for page `pg + 1`.
  unfoldable pub on_messages : String → ℕ → Answer Raw → Console → Console × Exit
  on_messages n pg answer c =
      if answer.is_success
      then (call_raws answer.raws c >>= λ d. (
        count_page n (note_total n answer.ntt (prepend_recent n (str_msg_divide (pg + 1)) d)),
        finished,
      ))
      else (c, finished)
