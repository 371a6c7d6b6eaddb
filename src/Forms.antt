-- ===== src/Forms.antt =====
-- The forms of the sites: what a form shows while its fields are on their way and when the answer
-- is there, and the accounts that are made with one, dida/fly/js/member/regist.js,
-- pop/fly/js/app/new.js and pop/fly/js/app/reset.js.
pub mod Adding
pub mod Racing
pub mod Pass
pub mod Articles
pub mod Users
mod Examples
use cmoon.Base.{
  ℕ, suc, String, Bool, true, false, not, ◌&&◌, List, [], ◌∷◌, ◌++◌, Option, none, some, str_eq,
  if◌then◌else◌, Text,
}

-- A `span` that a form puts behind its button, with its class.
pub record Note : Type 0 where
  pub cls : String
  pub msg : Text

-- The classes of a button's parent and the notes in it.
pub record Marks : Type 0 where
  pub loading : Bool
  pub success : Bool
  pub error : Bool
  pub notes : List Note

-- `$('.sel', p).remove()`
abbrev pub without : String → List Note → List Note
without sel [] = []
without sel (n ∷ ns) = if str_eq n.cls sel then without sel ns else n ∷ without sel ns

-- `p.removeClass('success').removeClass('error').addClass('loading')`
unfoldable pub load : String → Marks → Marks
load sel m = record m {
  notes = without sel m.notes;
  success = false;
  error = false;
  loading = true;
}

unfoldable pub succeed : Marks → Marks
succeed m = record m { loading = false; success = true }

unfoldable pub fail : String → Text → Marks → Marks
fail cls s m = record m {
  loading = false;
  error = true;
  notes = m.notes ++ record { cls = cls; msg = s } ∷ [];
}

-- An answer that is `success`, or not with its `errmsg`.
unfoldable pub settle : String → Option Text → Marks → Marks
unfolding succeed fail
settle cls none m = succeed m
settle cls (some s) m = fail cls s m

pub data Request : Type 0 where
  exists_name : Text → Request
  add_account : Text → Text → Text → Request
  reset_account : Text → Request

-- A page that makes an account: `name` is checked when the field is left, `also` is the nick or the
-- mail, `secret` the password; `timers` counts the calls of `loginCheck` that wait.
pub record Account : Type 0 where
  pub name : Text
  pub also : Text
  pub secret : Text
  pub at_name : Marks
  pub at_submit : Marks
  pub timers : ℕ
  pub requests : List Request

-- What `/json/member/exist` and `/json/app/exist` answer: an error, a name that is taken, or not.
pub data Answer : Type 0 where
  refused : Text → Answer
  taken : Text → Answer
  vacant : Answer

abbrev pub is_empty : Text → Bool
is_empty [] = true
is_empty (c ∷ s) = false

-- `memberCheck`, and its answer.
unfoldable pub member_check : Account → Account
unfolding load
member_check a = if is_empty a.name then a else record a {
  at_name = load "vres" a.at_name;
  requests = a.requests ++ exists_name a.name ∷ [];
}

unfoldable pub on_member_check : Answer → Account → Account
unfolding settle
on_member_check (refused s) a = record a { at_name = settle "vres" (some s) a.at_name }
on_member_check (taken s) a = record a { at_name = settle "vres" (some s) a.at_name }
on_member_check vacant a = record a { at_name = settle "vres" none a.at_name }

-- `memberAdd`: `is_right` is the check of the fields, `md5` the plugin. The field of the password is
-- overwritten with what is sent.
unfoldable pub member_add : (Text → Text) → Bool → Account → Account
unfolding load
member_add md5 is_right a = if not is_right then a else record a {
  secret = md5 (md5 a.secret);
  at_submit = load "vres" a.at_submit;
  requests = a.requests ++ add_account a.name a.also (md5 (md5 a.secret)) ∷ [];
}

-- The answer to `memberAdd`: it is right if it is `success` and tells the nick.
unfoldable pub on_member_add : Bool → Bool → Text → Account → Account
unfolding settle
on_member_add is_success has_nick errmsg a =
    if not (is_success && has_nick)
    then record a { at_submit = settle "vres" (some errmsg) a.at_submit }
    else record a { at_submit = settle "vres" none a.at_submit; timers = suc a.timers }

-- `appCheck` of new.js, and its answer.
unfoldable pub app_check : Account → Account
unfolding load
app_check a = if is_empty a.name then a else record a {
  at_name = load "vres" a.at_name;
  requests = a.requests ++ exists_name a.name ∷ [];
}

unfoldable pub on_app_check : Answer → Account → Account
unfolding settle
on_app_check (refused s) a = record a { at_name = settle "vres" (some s) a.at_name }
on_app_check (taken s) a = record a { at_name = settle "vres" (some s) a.at_name }
on_app_check vacant a = record a { at_name = settle "vres" none a.at_name }

-- `appAdd`, and its answer.
unfoldable pub app_add : (Text → Text) → Bool → Account → Account
unfolding load
app_add md5 is_right a = if not is_right then a else record a {
  secret = md5 (md5 a.secret);
  at_submit = load "vres" a.at_submit;
  requests = a.requests ++ add_account a.name a.also (md5 (md5 a.secret)) ∷ [];
}

unfoldable pub on_app_add : Bool → Bool → Text → Account → Account
unfolding settle
on_app_add is_success has_name errmsg a =
    if not (is_success && has_name)
    then record a { at_submit = settle "vres" (some errmsg) a.at_submit }
    else record a { at_submit = settle "vres" none a.at_submit; timers = suc a.timers }

-- `appReset`, and its answer, which puts a note in either case.
unfoldable pub app_reset : Bool → Account → Account
unfolding load
app_reset is_right a = if not is_right then a else record a {
  at_submit = load "vres" a.at_submit;
  requests = a.requests ++ reset_account a.name ∷ [];
}

abbrev pub note : Text → Marks → Marks
note s m = record m { notes = m.notes ++ record { cls = "vres"; msg = s } ∷ [] }

unfoldable pub on_app_reset : Text → Option Text → Account → Account
unfolding settle
on_app_reset sent none a = record a { at_submit = note sent (settle "vres" none a.at_submit) }
on_app_reset sent (some s) a = record a { at_submit = settle "vres" (some s) a.at_submit }
