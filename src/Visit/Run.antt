-- ===== src/Visit/Run.antt =====
-- A visit: the events of livecs.js and of the visitor's box, in any order.
use cmoon.Base.{
  String, Bool, List, [], ◌∷◌, Option, none, some, if◌then◌else◌, Text, Exit, finished, ◌>>=◌,
}
use cmoon.Box.{UiEvent, ui_step}
use cmoon.Box.Talk.{Talk, msg_send, restore_hint}
use cmoon.Visit.{
  Visit, Pipe, User, Raw, talking, raw_recently, raw_data, pipe_create, create_user, delete_user,
  on_session,
}

-- A raw and the handler that is registered for its name.
pub data Named : Type 0 where
  recent : Raw → Named
  data_from : Option String → Raw → Named

unfoldable pub call_raw : Named → Visit → Visit × Exit
call_raw (recent raw) v = raw_recently raw v
call_raw (data_from pipe raw) v = raw_data raw pipe v

-- The callback of `/json/msg`: `none` is a text that `JSON.parse` makes `null` of.
unfoldable pub call_raws : List (Option Named) → Visit → Visit × Exit
unfolding call_raw
call_raws [] v = (v, finished)
call_raws (none ∷ rs) v = call_raws rs v
call_raws (some r ∷ rs) v = call_raw r v >>= call_raws rs

-- `typed` gives the input a text and `sent` is the key that sends it, with the time of day;
-- `warned_off` is the timer of the warning.
pub data Event : Type 0 where
  piped : Pipe → Event
  joined : User → Pipe → Event
  quit : User → Pipe → Event
  resumed : Option String → Event
  came : Named → Event
  answered : Bool → List (Option Named) → Event
  typed : Text → Event
  sent : Text → Event
  warned_off : Event
  moved : UiEvent → Event

abbrev pub with_talk : (Talk → Talk) → Visit → Visit
with_talk f v = record v { talk = f v.talk }

module _ (get_pipe : String → Option String) where
  unfoldable pub step : Event → Visit → Visit
  unfolding pipe_create create_user delete_user on_session call_raw call_raws talking
  step (piped pipe) v = pipe_create pipe v
  step (joined user pipe) v = create_user get_pipe user pipe v
  step (quit user pipe) v = delete_user get_pipe user pipe v
  step (resumed s) v = on_session get_pipe s v
  step (came r) v = (call_raw r v).0
  step (answered is_success rs) v = if is_success then (call_raws rs v).0 else v
  step (typed s) v = with_talk (λ t. record t { input = s }) v
  step (sent tm) v = (talking (msg_send tm) v).0
  step warned_off v = with_talk restore_hint v
  step (moved e) v = with_talk (λ t. record t { ui = ui_step e t.ui }) v

  unfoldable pub run : List Event → Visit → Visit
  unfolding step
  run [] v = v
  run (e ∷ es) v = run es (step e v)
