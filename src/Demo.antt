-- ===== src/Demo.antt =====
-- The page where a chat is tried out, `bmoon.demo` of pop/fly/js/demo.js: the name of an application,
-- the style of the chat and its place, whose fields step up and down by the keys of the arrows. The
-- numbers are those of Paging/Numerals, whole and below 2 ^ 53.
pub mod Place
pub mod Stepping
mod Examples
use cmoon.Base.{
  ℕ, zero, suc, ◌+◌, ◌-◌, Bool, true, false, ◌&&◌, List, [], ◌∷◌, ◌++◌, Option, none, some, String,
  Text, Dict, lookup, put, units, decimal, leb, ◌==◌, if◌then◌else◌,
}
use cmoon.Paging.Numerals.{Parsed, nan, minus, plus, parse_int}

-- The first step with its class and messages, the second, the code that is shown to be copied,
-- whether the script of the chat was loaded, the places that the chat was told, the style sheet, and the chats that were started.
pub record Demo : Type 0 where
  pub has_step1 : Bool
  pub has_step2 : Bool
  pub is_loading : Bool
  pub is_error : Bool
  pub vres : List Text
  pub requests : List Text
  pub code_aname : Text
  pub code_css : Text
  pub css : Text
  pub fields : Dict Text
  pub codes : Dict Text
  pub has_chat : Bool
  pub updates : List (String × Text)
  pub started : List Text

-- `initClient`
abbrev pub init_client : Text → Demo → Demo
init_client aname d = record d {
  has_step1 = false;
  code_aname = aname;
  has_step2 = true;
  started = d.started ++ aname ∷ [];
}

abbrev pub is_long : Text → Bool
is_long [] = false
is_long (c ∷ s) = true

-- `appCheck`, with what `inputval` says of the field, and the callback of its request.
unfoldable pub app_check : Bool → Text → Demo → Demo
app_check is_right aname d =
    if is_right && is_long aname
    then record d {
      vres = [];
      is_error = false;
      is_loading = true;
      requests = d.requests ++ aname ∷ [];
    }
    else d

pub record Answer : Type 0 where
  pub is_success : Bool
  pub exists : Bool
  pub msg : Text
  pub errmsg : Text

abbrev pub complain : Text → Demo → Demo
complain t d = record d { is_error = true; vres = d.vres ++ t ∷ [] }

unfoldable pub on_exist : Text → Answer → Demo → Demo
on_exist aname a d =
    let e : Demo = record d { is_loading = false } in
    if a.is_success
    then if a.exists then init_client aname e else complain a.msg e
    else complain a.errmsg e

-- `changePlugin`
unfoldable pub change_plugin : Text → Demo → Demo
unfolding units
change_plugin v d =
    let url = units "http://css.bomdoo.com/b/client/" ++ (v ++ units ".css") in
    record d { code_css = url; css = url }

-- `changePos` for a place of one side. Its last act, which tells the chat, throws if there is none.
unfoldable pub change_pos : String → Text → Demo → Demo
change_pos k v d = record d {
  codes = put k v d.codes;
  updates = if d.has_chat then d.updates ++ (k, v) ∷ [] else d.updates;
}

unfoldable pub put_field : String → Text → Demo → Demo
put_field k v d = record d { fields = put k v d.fields }

abbrev pub difference : ℕ → ℕ → Parsed
difference a b = if leb b a then plus (a - b) else minus (b - a)

-- `parseInt(cssv) ? parseInt(cssv): 0`
abbrev pub or_zero : Parsed → Parsed
or_zero nan = plus 0
or_zero (plus n) = plus n
or_zero (minus n) = difference 0 n

abbrev pub next : Parsed → Parsed
next nan = nan
next (plus n) = plus (n + 1)
next (minus n) = difference 1 n

abbrev pub previous : Parsed → Parsed
previous nan = nan
previous (plus n) = difference n 1
previous (minus n) = minus (n + 1)

-- A number as a text.
unfoldable pub number_text : Parsed → Text
unfolding units decimal
number_text nan = units "NaN"
number_text (plus n) = decimal n
number_text (minus n) = b'-' ∷ decimal n

-- `/.*\%$/`
abbrev pub ends_in_percent : Text → Bool
ends_in_percent [] = false
ends_in_percent (c ∷ []) = c == b'%'
ends_in_percent (c ∷ d ∷ s) = ends_in_percent (d ∷ s)

-- What is put into a field with a text, `changePosVup` and `changePosVdown`.
abbrev pub stepped : (Parsed → Parsed) → Text → Text
unfolding number_text
stepped f t =
    let v = number_text (f (or_zero (parse_int t))) in
    if ends_in_percent t then v ++ b'%' ∷ [] else v

abbrev pub step_from : (Parsed → Parsed) → String → Option Text → Demo → Demo
unfolding stepped change_pos put_field
step_from f k none d = d
step_from f k (some t) d = change_pos k (stepped f t) (put_field k (stepped f t) d)

unfoldable pub change_pos_vup : String → Demo → Demo
unfolding step_from
change_pos_vup k d = step_from next k (lookup k d.fields) d

unfoldable pub change_pos_vdown : String → Demo → Demo
unfolding step_from
change_pos_vdown k d = step_from previous k (lookup k d.fields) d

-- The name is left, its answer comes, the script of the chat is loaded, a style is chosen, a place is typed, and the keys.
pub data Event : Type 0 where
  left : Bool → Text → Event
  answered : Text → Answer → Event
  loaded : Event
  chosen : Text → Event
  typed : String → Text → Event
  up : String → Event
  down : String → Event

unfoldable pub step : Event → Demo → Demo
unfolding app_check on_exist change_plugin change_pos put_field change_pos_vup change_pos_vdown
step (left b t) d = app_check b t d
step (answered t a) d = on_exist t a d
step loaded d = record d { has_chat = true }
step (chosen v) d = change_plugin v d
step (typed k v) d = change_pos k v (put_field k v d)
step (up k) d = change_pos_vup k d
step (down k) d = change_pos_vdown k d

unfoldable pub run : List Event → Demo → Demo
unfolding step
run [] d = d
run (e ∷ es) d = run es (step e d)
