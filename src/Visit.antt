-- ===== src/Visit.antt =====
-- The visitor's connection, pop/fly/js/ape/app/livecs.js: its handlers, and `ape.opts` and
-- `ape.lcsCurrentPipe` as they stand in `Talk`. The events of the box come once its pipe has made it.
pub mod Run
pub mod Presence
pub mod Start
mod Examples
use cmoon.Base.{
  ℕ, String, Bool, true, false, ◌&&◌, ◌||◌, List, [], ◌∷◌, ◌++◌, Option, none, some, str_eq,
  if◌then◌else◌, Text, units, decimal, Exit, finished, type_error, ◌>>=◌,
}
use cmoon.Chat.Render.{Message, Payload}
use cmoon.Box.{UiEvent, ui_step}
use cmoon.Box.Talk.{
  Talk, Outgoing, lcs_visit, json_msg, msg_send, restore_hint, admin_on, admin_off, on_data,
  on_recently, or_else,
}

-- What the handlers read of a pipe and of a user of the client library.
pub record Pipe : Type 0 where
  pub pname : Option String
  pub aname : String

pub record User : Type 0 where
  pub pubid : String
  pub isadmin : Bool

-- The local time that `Date` gives for `raw.time`, and the time of day that `toString` prints.
pub record Moment : Type 0 where
  pub year : ℕ
  pub month : ℕ
  pub day : ℕ
  pub hours : ℕ
  pub minutes : ℕ
  pub seconds : ℕ
  pub clock : Text

-- `raw.data`: `sender` and `receiver` are the `uin` of `from` and `to`, `none` where these are not
-- there.
pub record Raw : Type 0 where
  pub sender : Option String
  pub to_uin : Option String
  pub receiver : Option String
  pub kind : String
  pub moment : Moment
  pub payload : Payload

pub record Visit : Type 0 where
  pub talk : Talk
  pub is_restored : Bool
  pub restores_msg : Bool
  pub session : Option String

abbrev pub is_name : Option String → String → Bool
is_name none n = false
is_name (some s) n = str_eq s n

abbrev pub same_pipe : Option String → Option String → Bool
same_pipe none none = true
same_pipe none (some p) = false
same_pipe (some p) none = false
same_pipe (some p) (some q) = str_eq p q

-- `y+"-"+m+"-"+d+" "+h+":"+mt+":"+s`
unfoldable pub date_text : Moment → Text
date_text t =
    decimal t.year
    ++ (units "-"
        ++ (decimal t.month
            ++ (units "-"
                ++ (decimal t.day
                    ++ (units " "
                        ++ (decimal t.hours
                            ++ (units ":"
                                ++ (decimal t.minutes ++ (units ":" ++ decimal t.seconds)))))))))

-- A handler of the box.
unfoldable pub talking : (Talk → Talk × Exit) → Visit → Visit × Exit
talking f v = let (t, e) = f v.talk in (record v { talk = t }, e)

abbrev pub receiver_of : Raw → String
receiver_of raw = or_else raw.to_uin (elim raw.receiver [ none ↦ "undefined" | some s ↦ s ])

-- What the two handlers of raws make of one, `s` being its sender.
abbrev pub recent_message : String → Raw → Message
recent_message s raw = record {
  sender = s;
  receiver = receiver_of raw;
  kind = raw.kind;
  tm = date_text raw.moment;
  payload = raw.payload;
}

abbrev pub data_message : String → Raw → Message
data_message s raw = record {
  sender = s;
  receiver = "";
  kind = raw.kind;
  tm = raw.moment.clock;
  payload = raw.payload;
}

-- `rawLcsRecently`: only raws with the visitor's name are for the box, and of these only the kinds
-- `send` and `msg`.
unfoldable pub raw_recently : Raw → Visit → Visit × Exit
unfolding talking
raw_recently raw v =
    let me : String = v.talk.uname in
    if is_name raw.sender me || (is_name raw.to_uin me || is_name raw.receiver me)
    then elim raw.sender [
      | none ↦ (v, type_error)
      | some s ↦
          if str_eq raw.kind "send" || str_eq raw.kind "msg"
          then talking (on_recently (recent_message s raw)) v
          else (v, finished)
    ]
    else (v, finished)

-- `opts.aname`, which a pipe's event has set.
abbrev is_operator : Option String → Option String → Bool
is_operator none a = false
is_operator (some s) none = false
is_operator (some s) (some a) = str_eq s a

-- `rawLcsData`: raws of the operator, and raws that came by the current pipe.
unfoldable pub raw_data : Raw → Option String → Visit → Visit × Exit
unfolding talking
raw_data raw pipe v =
    if is_operator raw.sender v.talk.aname || same_pipe pipe v.talk.current_pipe
    then elim raw.sender [
      | none ↦ (v, type_error)
      | some s ↦ talking (on_data (data_message s raw)) v
    ]
    else (v, finished)

-- `pipeCreate`
unfoldable pub pipe_create : Pipe → Visit → Visit
pipe_create pipe v =
    if is_name pipe.pname v.talk.pname
    then record v {
      talk = record v.talk {
        aname = some pipe.aname;
        requests =
            v.talk.requests
            ++ ((if v.is_restored then lcs_visit (some pipe.aname) v.talk.pname ∷ [] else [])
                ++ (if v.restores_msg then json_msg (some pipe.aname) v.talk.uname ∷ [] else []));
      };
    }
    else v

abbrev pub is_admin_of : String → User → Pipe → Bool
is_admin_of site user pipe = is_name pipe.pname site && user.isadmin

-- `get_pipe` is the client library's; a pipe is its public id.
module _ (get_pipe : String → Option String) where
  -- `createUser`
  unfoldable pub create_user : User → Pipe → Visit → Visit
  create_user user pipe v =
      if is_admin_of v.talk.pname user pipe
      then record v {
        session = some user.pubid;
        talk = admin_on pipe.aname (record v.talk { current_pipe = get_pipe user.pubid });
      }
      else v

  -- `deleteUser`
  unfoldable pub delete_user : User → Pipe → Visit → Visit
  delete_user user pipe v =
      if is_admin_of v.talk.pname user pipe
      then record v { talk = admin_off (record v.talk { current_pipe = none }) }
      else v

  -- The answer of the session in `start`.
  unfoldable pub on_session : Option String → Visit → Visit
  on_session s v = record v {
    talk = record v.talk { current_pipe = elim s [ none ↦ none | some p ↦ get_pipe p ] };
  }
