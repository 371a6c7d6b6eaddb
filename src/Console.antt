-- ===== src/Console.antt =====
-- The operator's chat console, pop/fly/js/ape/app/bmoon.chatb.js: its state, and the parts of the
-- page that it keeps. `Roster` is the list of visitors, `Console/Messages`
-- and `Console/Events` the handlers.
pub mod Messages
pub mod Events
pub mod Sending
pub mod Focus
pub mod Keeps
pub mod Opening
pub mod Run
mod Examples
pub mod Leaving
pub mod Same
pub mod History
pub mod Pages
use cmoon.Base.{
  ℕ, zero, suc, ◌+◌, ◌*◌, String, Bool, true, false, List, [], ◌∷◌, ◌++◌, map, Option, none, some,
  str_eq, contains, ltb, ◌==◌, if◌then◌else◌, Text, units, Dict, lookup,
}
pub use cmoon.Base.{Exit, finished, uri_error, type_error, ◌>>=◌}
use cmoon.Chat.Render.{Message, str_msg, console_action}
use cmoon.Roster.{Tabs, node_user}

-- A `<div id="im-msg-NAME">`: the children of its `.recently` and its `.data`, and whether it is
-- shown.
pub record MsgBox : Type 0 where
  pub uname : String
  pub recently : List Text
  pub data_box : List Text
  pub is_shown : Bool

-- What leaves the browser.
pub data Request : Type 0 where
  lcs_send : String → Text → Request
  lcs_msg : String → Text → Request
  json_msg : String → String → ℕ → Request
  json_place : Option Text → Request

-- `bmoon.chat`, the page and the client library's `lcsCurrentPipe`. A pipe is its public id; a
-- request is logged as it is sent; `send_handlers` counts how often `msgSend` was bound to the
-- input and the button, `restores` are the texts that timers will put back into `#im-stat`, the
-- next one first, and `scrolls` counts how often the messages were scrolled to their end.
-- `indicator_error`: `#chat-indicator` reads that loading failed, in the class `text-error`. The
-- audio element has a source and the number of times it was played.
pub record Console : Type 0 where
  pub aname : String
  pub c_user_id : String
  pub users_on : List String
  pub users_fetched : List String
  pub users_new : List String
  pub users_total_msg : Dict ℕ
  pub users_load_page : Dict ℕ
  pub tabs : Tabs
  pub boxes : List MsgBox
  pub input : Text
  pub send_handlers : ℕ
  pub stat : Text
  pub restores : List Text
  pub group_pubid : Option String
  pub current_pipe : Option String
  pub is_loading : Bool
  pub indicator_shown : Bool
  pub indicator_error : Bool
  pub need_admin_shown : Bool
  pub sound_on : Bool
  pub is_msie : Bool
  pub reminder_src : Text
  pub plays : ℕ
  pub scrolls : ℕ
  pub requests : List Request

abbrev pub has_box : String → List MsgBox → Bool
has_box n [] = false
has_box n (b ∷ bs) = if str_eq b.uname n then true else has_box n bs

unfoldable pub update_box : String → (MsgBox → MsgBox) → List MsgBox → List MsgBox
update_box n f [] = []
update_box n f (b ∷ bs) = (if str_eq b.uname n then f b else b) ∷ update_box n f bs

-- `_nodeMsg(uname, true)`: a new box is hidden unless it is the current visitor's.
unfoldable pub node_msg : String → Console → Console
node_msg n c = if has_box n c.boxes then c else record c {
  boxes =
      c.boxes
      ++ record { uname = n; recently = []; data_box = []; is_shown = str_eq c.c_user_id n } ∷ [];
}

-- `_nodeUser(uname, true)`
unfoldable pub ensure_user : String → Console → Console
ensure_user n c = record c { tabs = node_user n true c.tabs }

-- `$(html).appendTo(databox)` and `$(html).prependTo(recentbox)`
unfoldable pub append_data : String → Text → Console → Console
append_data n html c = record c {
  boxes = update_box n (λ b. record b { data_box = b.data_box ++ html ∷ [] }) c.boxes;
}

unfoldable pub prepend_recent : String → Text → Console → Console
prepend_recent n html c = record c {
  boxes = update_box n (λ b. record b { recently = html ∷ b.recently }) c.boxes;
}

abbrev pub scroll_down : Console → Console
scroll_down c = record c { scrolls = suc c.scrolls }

abbrev pub send : Request → Console → Console
send r c = record c { requests = c.requests ++ r ∷ [] }

-- `soundRemind(type)`
unfoldable pub sound_remind : String → Console → Console
sound_remind kind c =
    if c.sound_on
    then record c {
      reminder_src = units "/obj/audio/" ++ (units kind ++ units ".wav");
      plays = if c.is_msie then c.plays else suc c.plays;
    }
    else c

-- `_strMsg`
unfoldable pub console_msg : Console → Message → Option Text
console_msg c m = str_msg console_action c.aname m

-- `bmoon.utl.type(o[name]) == 'Number'`: `type(0)` is false.
unfoldable pub number_at : String → Dict ℕ → Option ℕ
number_at n d = elim (lookup n d) [ none ↦ none | some k ↦ if k == 0 then none else some k ]

-- `$.inArray` and `splice`: the first occurrence goes, and the last element where there is none.
unfoldable pub drop_last : List String → List String
drop_last [] = []
drop_last (x ∷ []) = []
drop_last (x ∷ y ∷ xs) = x ∷ drop_last (y ∷ xs)

unfoldable pub remove_first : String → List String → List String
remove_first n [] = []
remove_first n (x ∷ xs) = if str_eq x n then xs else x ∷ remove_first n xs

unfoldable pub splice_name : String → List String → List String
unfolding drop_last remove_first
splice_name n xs = if contains n xs then remove_first n xs else drop_last xs
