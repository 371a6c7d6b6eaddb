-- ===== src/Link.antt =====
-- The operator's connection, pop/fly/js/ape/app/livecsb.js: its guards, and the handlers of the
-- console that they let through.
pub mod Keeping
pub mod Presence
mod Examples
use cmoon.Base.{
  String, Bool, true, false, not, ◌&&◌, ◌||◌, List, [], ◌∷◌, ◌++◌, Option, none, some, str_eq,
  if◌then◌else◌, Text, Exit, finished, type_error,
}
use cmoon.Chat.Render.{Message}
use cmoon.Console.{Console}
use cmoon.Console.Events.{
  on_ready, need_more_admin, dear_users, Dear, on_recently, on_data, user_on, user_off,
}
use cmoon.Visit.{Raw, is_name, date_text, data_message}
use cmoon.Box.Talk.{or_else}

-- The commands of the connection itself.
pub data Command : Type 0 where
  lcs_joinb : String → Command
  lcs_dearusers : Command

pub record Link : Type 0 where
  pub console : Console
  pub is_restored : Bool
  pub is_cleared : Bool
  pub commands : List Command

-- `pipe.properties.aname` and the public id.
pub record Pipe : Type 0 where
  pub aname : Option String
  pub pubid : String

pub record User : Type 0 where
  pub uin : String
  pub pubid : String

-- `start`
unfoldable pub start : Link → Link
start l =
    if l.is_restored
    then l
    else record l { commands = l.commands ++ lcs_joinb l.console.aname ∷ [] }

-- `needMoreAdmin`
unfoldable pub lack_admin : Link → Link
lack_admin l = record l { is_cleared = true; console = need_more_admin l.console }

-- `pipeCreate`; `is_from` says that the event has `options.from`.
unfoldable pub pipe_create : Pipe → Bool → Link → Link
pipe_create pipe is_from l =
    if is_name pipe.aname l.console.aname && not is_from
    then record l {
      console = on_ready (some pipe.pubid) (record l.console { current_pipe = some pipe.pubid });
      commands = l.commands ++ lcs_dearusers ∷ [];
    }
    else l

-- The test of `createUser` and `deleteUser`: a user of the operator's pipe, and not the operator.
abbrev pub is_visitor : String → User → Pipe → Bool
is_visitor me user pipe = is_name pipe.aname me && not (str_eq user.uin me)

-- `get_pipe` is the client library's.
module _ (get_pipe : Option String → Option String) where
  -- `createUser`
  unfoldable pub create_user : User → Pipe → Console → Console
  create_user user pipe c =
      if is_visitor c.aname user pipe then user_on get_pipe user.uin user.pubid c else c

-- `deleteUser`, with the time of day that `userOff` prints.
unfoldable pub delete_user : User → Pipe → Text → Console → Console × Exit
delete_user user pipe tm c =
    if is_visitor c.aname user pipe then user_off user.uin tm c else (c, finished)

-- The receiver of an old message, `"0"` where it names none.
abbrev pub receiver_of : Raw → String
receiver_of raw = or_else raw.to_uin (or_else raw.receiver "0")

abbrev pub recent_message : String → Raw → Message
recent_message s raw = record {
  sender = s;
  receiver = receiver_of raw;
  kind = raw.kind;
  tm = date_text raw.moment;
  payload = raw.payload;
}

-- `rawLcsRecently`: old messages that the operator wrote or got.
unfoldable pub raw_recently : Raw → Console → Console × Exit
raw_recently raw c =
    if is_name raw.sender c.aname || (is_name raw.to_uin c.aname || is_name raw.receiver c.aname)
    then elim raw.sender [ none ↦ (c, type_error) | some s ↦ on_recently (recent_message s raw) c ]
    else (c, finished)

-- `rawLcsData`: new messages for the operator.
unfoldable pub raw_data : Raw → Console → Console × Exit
raw_data raw c =
    if is_name raw.to_uin c.aname || is_name raw.receiver c.aname
    then elim raw.sender [ none ↦ (c, type_error) | some s ↦ on_data (data_message s raw) c ]
    else (c, finished)
