-- ===== src/Kol.antt =====
-- The start of the chat on a visited site, pop/fly/js/bmoon.kol.js: the scripts are loaded one behind
-- the other, each when a condition holds that is polled for. Style sheets are left out, and so are
-- the options of the client beyond its name.
pub mod Polling
pub mod Scripts
mod Examples
use cmoon.Base.{
  ℕ, zero, suc, ◌+◌, ◌/◌, Bool, true, false, not, ◌&&◌, ◌||◌, List, [], ◌∷◌, ◌++◌, Option, none,
  some, ltb, ◌==◌, if◌then◌else◌, Text, units, Exit, finished, type_error,
}
use cmoon.Util.{seconds}

-- What the browser holds at a time: the version of jQuery if it is there, whether it has the plugin
-- for cookies, whether there are `document.body` and `liveCS`, and whether the page is in UTF-8.
pub record Env : Type 0 where
  pub jquery : Option Text
  pub has_cookie : Bool
  pub has_body : Bool
  pub has_live_cs : Bool
  pub is_utf : Bool

-- The functions that wait: that of `init`, and those of `onready`.
pub data Wait : Type 0 where
  chat_script : Wait
  stat_post : Text → Wait
  client_start : Wait

-- What was loaded or sent: `chatb.js`, `chatc.js`, `chat.js` or its copy in another encoding, the
-- statistics of a name, and the client of a name.
pub data Loaded : Type 0 where
  chatb chatc : Loaded
  chat : Bool → Loaded
  stat : Text → Loaded
  client : Text → Loaded

-- `_etime` is one counter for all that wait.
pub record Kol : Type 0 where
  pub inited : Bool
  pub aname : Text
  pub etime : ℕ
  pub waits : List Wait
  pub log : List Loaded

-- The options of a call; a name that is not given is empty.
pub record Opts : Type 0 where
  pub stat_only : Bool
  pub aname : Text

-- `s < t` of two texts
abbrev pub text_lt : Text → Text → Bool
text_lt s [] = false
text_lt [] (d ∷ t) = true
text_lt (c ∷ s) (d ∷ t) = if c == d then text_lt s t else ltb c d

abbrev pub is_there : Option Text → Bool
is_there none = false
is_there (some v) = true

-- The conditions that are polled for.
unfoldable pub holds : Wait → Env → Bool
holds chat_script e = is_there e.jquery && e.has_cookie
holds (stat_post aname) e = e.has_body
holds client_start e = e.has_live_cs

-- The functions that then run.
unfoldable pub runs : Wait → Env → Kol → Kol
runs chat_script e k = record k { log = k.log ++ chat e.is_utf ∷ [] }
runs (stat_post aname) e k = record k { log = k.log ++ stat aname ∷ [] }
runs client_start e k = record k { log = k.log ++ client k.aname ∷ [] }

-- `_execAfter`, to its timer; `sec` is 0 where it is not given.
unfoldable pub exec_after : Wait → ℕ → Env → Kol → Kol
unfolding holds runs
exec_after w sec e k =
    if ltb (seconds sec) (k.etime / 10)
    then record k { etime = 0 }
    else if holds w e
    then runs w e (record k { etime = 0 })
    else record k { etime = suc k.etime; waits = k.waits ++ w ∷ [] }

abbrev pub without_at : ℕ → List Wait → List Wait
without_at n [] = []
without_at zero (w ∷ ws) = ws
without_at (suc n) (w ∷ ws) = w ∷ without_at n ws

abbrev pub wait_at : ℕ → List Wait → Option Wait
wait_at n [] = none
wait_at zero (w ∷ ws) = some w
wait_at (suc n) (w ∷ ws) = wait_at n ws

-- The timer of one of those that wait: the number of seconds is not handed on.
unfoldable pub tick : ℕ → Env → Kol → Kol
unfolding exec_after
tick n e k = elim (wait_at n k.waits) [
  | none ↦ k
  | some w ↦ exec_after w 0 e (record k { waits = without_at n k.waits })
]

abbrev pub name_or : Text → Text → Text
name_or [] t = t
name_or (c ∷ s) t = c ∷ s

-- The older script is loaded where there is no jQuery or one whose version comes before as a text.
abbrev pub is_old : Option Text → Bool
is_old none = true
is_old (some v) = text_lt v (units "1.4.2")

abbrev pub plugin_log : Env → List Loaded
plugin_log e = if is_old e.jquery then chatb ∷ [] else if not e.has_cookie then chatc ∷ [] else []

-- `init`
unfoldable pub init : Option Opts → Env → Kol → Kol
unfolding exec_after
init none e k = k
init (some o) e k =
    if k.inited || o.stat_only
    then k
    else exec_after chat_script 10 e (record k {
      inited = true;
      aname = name_or o.aname (units "unknown");
      log = k.log ++ plugin_log e;
    })

-- `onready`, which reads a property of its options.
unfoldable pub onready : Option Opts → Env → Kol → Kol × Exit
unfolding init exec_after
onready none e k = (init none e k, type_error)
onready (some o) e k =
    let i = init (some o) e k in
    if o.stat_only
    then (exec_after (stat_post o.aname) 10 e i, finished)
    else (exec_after client_start 10 e i, finished)
