-- ===== src/Visit/Presence.antt =====
-- Who is on line for the visitor: the box and the connection against a plain account of it.
use cmoon.Base.{
  String, ◌≡◌, ◌≤◌, List, [], ◌∷◌, Option, none, some, length, if◌then◌else◌, Text, Exit, ◌>>=◌,
  finished, uri_error, type_error, Option-cases, inl, inr, arith,
}
use cmoon.Box.Talk.{
  Talk, box_msg, own_message, msg_send, deliver, sound_remind, restore_hint, admin_on, admin_off,
  on_data, on_recently, hint_of,
}
use cmoon.Chat.Render.{Message}
use cmoon.Visit.{
  Visit, talking, raw_recently, raw_data, pipe_create, create_user, delete_user, is_admin_of,
  recent_message, data_message,
}
use cmoon.Visit.Run.{
  Named, recent, data_from, call_raw, call_raws, Event, piped, joined, quit, resumed, came,
  answered, typed, sent, warned_off, moved, step, run,
}

-- The operator who is on line: a name, and the public id of the connection.
pub record Operator : Type 0 where
  pub aname : String
  pub pubid : String

-- The account: an operator of the site who joins is on line until one leaves.
abbrev pub account : String → Event → Option Operator → Option Operator
account site (joined user pipe) p =
    if is_admin_of site user pipe
    then some (record { aname = pipe.aname; pubid = user.pubid })
    else p
account site (quit user pipe) p = if is_admin_of site user pipe then none else p
account site (piped pipe) p = p
account site (resumed s) p = p
account site (came r) p = p
account site (answered b rs) p = p
account site (typed s) p = p
account site (sent tm) p = p
account site warned_off p = p
account site (moved e) p = p

abbrev pub accounts : String → List Event → Option Operator → Option Operator
accounts site [] p = p
accounts site (e ∷ es) p = accounts site es (account site e p)

-- Nothing longer than a message may be is typed, and no session is resumed.
abbrev pub IsPlain : Event → Type 0
IsPlain (typed s) = length s ≤ 256
IsPlain (resumed s) = ⊥
IsPlain (joined user pipe) = Unit
IsPlain (quit user pipe) = Unit
IsPlain (piped pipe) = Unit
IsPlain (came r) = Unit
IsPlain (answered b rs) = Unit
IsPlain (sent tm) = Unit
IsPlain warned_off = Unit
IsPlain (moved e) = Unit

abbrev pub ArePlain : List Event → Type 0
ArePlain [] = Unit
ArePlain (e ∷ es) = IsPlain e × ArePlain es

abbrev pub name_of : Option Operator → Option String
name_of none = none
name_of (some o) = some o.aname

module _ (get_pipe : String → Option String) where
  abbrev pub pipe_of : Option Operator → Option String
  pipe_of none = none
  pipe_of (some o) = get_pipe o.pubid

  -- What the visitor's page makes of the account.
  pub record Shows (site : String) (p : Option Operator) (t : Talk) : Type 0 where
    pub same_site : t.pname ≡ site
    pub shown_admin : t.admin ≡ name_of p
    pub shown_pipe : t.current_pipe ≡ pipe_of p
    pub shown_hint : t.hint ≡ hint_of (name_of p)
    pub no_restores : t.restores ≡ []
    pub short : length t.input ≤ 256

  module _ (site : String) (p : Option Operator) where
    on_data-Shows : (m : Message) (t : Talk) → Shows site p t → Shows site p (on_data m t).0
    unfolding on_data sound_remind
    on_data-Shows m t h = elim (Option-cases (box_msg t m)) [
      | inl e ↦ rw (on_data, e) h
      | inr (html, e) ↦ rw (on_data, e) (ground arith)
    ]

    on_recently-Shows : (m : Message) (t : Talk) → Shows site p t → Shows site p (on_recently m t).0
    unfolding on_recently
    on_recently-Shows m t h = elim (Option-cases (box_msg t m)) [
      | inl e ↦ rw (on_recently, e) h
      | inr (html, e) ↦ rw (on_recently, e) (ground arith)
    ]

    msg_send-Shows : (tm : Text) (t : Talk) → Shows site p t → Shows site p (msg_send tm t).0
    unfolding msg_send deliver sound_remind
    msg_send-Shows tm t h = elim (Option-cases (box_msg t (own_message tm t))) [
      | inl e ↦ rw (msg_send, e) h
      | inr (html, e) ↦ rw (msg_send, e) (ground arith)
    ]

    call_raw-Shows :
        (r : Named) (v : Visit) → Shows site p v.talk → Shows site p (call_raw r v).0.talk
    unfolding call_raw raw_recently raw_data talking
    call_raw-Shows (recent raw) v h = elim (Option-cases raw.sender) [
      | inl e ↦ rw e (ground arith)
      | inr (s, e) ↦ rw e (ground (arith, on_recently-Shows (recent_message s raw) v.talk h))
    ]
    call_raw-Shows (data_from pipe raw) v h = elim (Option-cases raw.sender) [
      | inl e ↦ rw e (ground arith)
      | inr (s, e) ↦ rw e (ground (arith, on_data-Shows (data_message s raw) v.talk h))
    ]

    bind-Shows :
        (r : Visit × Exit) (rs : List (Option Named))
        → ((v : Visit) → Shows site p v.talk → Shows site p (call_raws rs v).0.talk)
        → Shows site p r.0.talk
        → Shows site p (r >>= call_raws rs).0.talk
    bind-Shows (v, finished) rs k h = k v h
    bind-Shows (v, uri_error) rs k h = h
    bind-Shows (v, type_error) rs k h = h

    call_raws-Shows :
        (rs : List (Option Named)) (v : Visit)
        → Shows site p v.talk
        → Shows site p (call_raws rs v).0.talk
    unfolding call_raws
    call_raws-Shows [] v h = h
    call_raws-Shows (none ∷ rs) v h = call_raws-Shows rs v h
    call_raws-Shows (some r ∷ rs) v h =
        bind-Shows (call_raw r v) rs (call_raws-Shows rs) (call_raw-Shows r v h)

  step-Shows :
      (site : String) (p : Option Operator) (e : Event) (v : Visit)
      → IsPlain e
      → Shows site p v.talk
      → Shows site (account site e p) (step get_pipe e v).talk
  unfolding step pipe_create create_user delete_user admin_on admin_off sound_remind restore_hint
      talking
  step-Shows site p (piped pipe) v k h = ground arith
  step-Shows site p (joined user pipe) v k h = ground arith
  step-Shows site p (quit user pipe) v k h = ground arith
  step-Shows site p (resumed s) v k h = absurd k
  step-Shows site p (came r) v k h = call_raw-Shows site p r v h
  step-Shows site p (answered b rs) v k h = ground (arith, call_raws-Shows site p rs v h)
  step-Shows site p (typed s) v k h = ground arith
  step-Shows site p (sent tm) v k h = msg_send-Shows site p tm v.talk h
  step-Shows site p warned_off v k h = ground arith
  step-Shows site p (moved e) v k h = ground arith

  -- From a page that shows an account of who is on line: after any events, but for sessions that are
  -- resumed and texts of more than 256 units, the name that messages go to, the pipe that they are
  -- sent by and the hint are those of the account after these events.
  pub run-Shows :
      (site : String) (p : Option Operator) (es : List Event) (v : Visit)
      → ArePlain es
      → Shows site p v.talk
      → Shows site (accounts site es p) (run get_pipe es v).talk
  unfolding run
  run-Shows site p [] v k h = h
  run-Shows site p (e ∷ es) v (k, ks) h =
      run-Shows site (account site e p) es (step get_pipe e v) ks (step-Shows site p e v k h)
