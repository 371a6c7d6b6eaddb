-- ===== src/Box.antt =====
-- The visitor's chat box, pop/fly/js/ape/app/bmoon.chat.js: the parts of the box that are shown and
-- the handlers that show them. A part is faded in at once.
pub mod Parts
pub mod Handlers
pub mod Kept
pub mod Gone
pub mod Unread
pub mod Talk
pub mod Sending
mod Examples
use cmoon.Base.{
  ℕ, zero, suc, String, Bool, true, false, not, ◌&&◌, ◌||◌, List, [], ◌∷◌, ◌++◌, Option, none, some,
  str_eq, if◌then◌else◌,
}

-- `o.max`, `o.mid` and `o.min`
pub data Part : Type 0 where
  max mid min : Part

-- `opts.maxevent`; every text but the two is `other`.
pub data MaxEvent : Type 0 where
  click mouseenter other : MaxEvent

-- What is bound to `o.maxer`: `o.openChat` or `o.closeChat`.
pub data Handler : Type 0 where
  opens closes : Handler

-- The options that the parts go by.
pub record Options : Type 0 where
  pub minable : Bool
  pub hidemid_on_max : Bool
  pub maxevent : MaxEvent
  pub restore_ui : Bool
  pub default_ui : Option String

-- `min_shown` is `none` where there is no `o.min`. `handlers` are bound to `o.maxer` for
-- `opts.maxevent`, `rebinders` to its `mouseout`; `timers` counts the timers of `closeChat` that
-- have not run. `is_over` and `is_dirty` are classes of `o.maxer`, `is_blinking` says that its
-- interval runs. `cookie` is `lcs_ui`.
pub record Ui : Type 0 where
  pub hidemid_on_max : Bool
  pub maxevent : MaxEvent
  pub max_shown : Bool
  pub mid_shown : Bool
  pub min_shown : Option Bool
  pub rendo : Part
  pub handlers : List Handler
  pub rebinders : ℕ
  pub timers : ℕ
  pub is_over : Bool
  pub is_blinking : Bool
  pub is_dirty : Bool
  pub cookie : Option String
  pub scrolls : ℕ

abbrev pub is_max : Part → Bool
is_max max = true
is_max mid = false
is_max min = false

abbrev pub is_mid : Part → Bool
is_mid max = false
is_mid mid = true
is_mid min = false

abbrev pub is_min : Part → Bool
is_min max = false
is_min mid = false
is_min min = true

-- The `switch` of `initUI`.
unfoldable pub part_named : Bool → Option String → Part
part_named minable none = mid
part_named minable (some s) =
    if str_eq s "max" then max else if str_eq s "min" then (if minable then min else mid) else mid

abbrev pub event_of : MaxEvent → MaxEvent
event_of click = click
event_of mouseenter = mouseenter
event_of other = click

abbrev pub is_hover : MaxEvent → Bool
is_hover click = false
is_hover mouseenter = true
is_hover other = false

abbrev pub is_click : MaxEvent → Bool
is_click click = true
is_click mouseenter = false
is_click other = false

-- What `initUI` shows of the parts, and what it binds.
unfoldable pub ui_at : Options → Option String → Part → Ui
ui_at opts cookie p = record {
  hidemid_on_max = opts.hidemid_on_max;
  maxevent = event_of opts.maxevent;
  max_shown = is_max p;
  mid_shown = if is_max p && not opts.hidemid_on_max then true else is_mid p;
  min_shown = if opts.minable then some (is_min p) else none;
  rendo = p;
  handlers = (if is_max p && not opts.hidemid_on_max then closes else opens) ∷ [];
  rebinders = 0;
  timers = 0;
  is_over = false;
  is_blinking = false;
  is_dirty = false;
  cookie = cookie;
  scrolls = 0;
}

-- `initUI`, with the cookie that the browser holds.
unfoldable pub init_ui : Options → Option String → Ui
unfolding part_named
init_ui opts cookie =
    ui_at opts cookie
      (part_named opts.minable (if opts.restore_ui then cookie else opts.default_ui))

-- `_blink` and `_stopBlink`
unfoldable pub blink : Ui → Ui
blink u = if u.is_blinking then u else record u { is_blinking = true }

unfoldable pub stop_blink : Ui → Ui
stop_blink u = record u { is_blinking = false; is_dirty = false }

-- The function of the interval.
unfoldable pub blink_tick : Ui → Ui
blink_tick u = if u.is_blinking then record u { is_dirty = not u.is_dirty } else u

-- `openChat`
unfoldable pub open_chat : Ui → Ui
unfolding stop_blink
open_chat u = stop_blink (record u {
  mid_shown = if u.hidemid_on_max then false else u.mid_shown;
  handlers =
      if u.hidemid_on_max
      then u.handlers
      else if is_click u.maxevent
      then closes ∷ []
      else u.handlers;
  max_shown = true;
  rendo = max;
  scrolls = suc u.scrolls;
  cookie = some "max";
})

-- `closeChat`
unfoldable pub close_chat : Ui → Ui
close_chat u = record u {
  max_shown = false;
  handlers =
      if is_hover u.maxevent then [] else if u.hidemid_on_max then u.handlers else opens ∷ [];
  timers = if is_hover u.maxevent then suc u.timers else u.timers;
  mid_shown = true;
  rendo = mid;
  cookie = some "mid";
}

-- The function of the timer of `closeChat`, if one is waiting.
unfoldable pub timer_runs : Ui → Ui
timer_runs u = elim u.timers [
  | zero ↦ u
  | suc k ↦
      let v : Ui = record u { timers = k } in
      if u.is_over
      then record v { rebinders = suc u.rebinders }
      else record v { handlers = u.handlers ++ opens ∷ [] }
]

unfoldable pub handle : Handler → Ui → Ui
unfolding open_chat close_chat
handle opens u = open_chat u
handle closes u = close_chat u

-- An event runs the handlers that were bound when it came.
unfoldable pub fire : List Handler → Ui → Ui
unfolding handle
fire [] u = u
fire (h ∷ hs) u = fire hs (handle h u)

-- The pointer enters `o.maxer`.
unfoldable pub enter : Ui → Ui
unfolding fire
enter u =
    if is_hover u.maxevent
    then (let v : Ui = fire u.handlers u in record v { is_over = true })
    else u

abbrev rebind : ℕ → List Handler
rebind zero = []
rebind (suc k) = opens ∷ rebind k

-- It leaves.
unfoldable pub leave : Ui → Ui
leave u =
    if is_hover u.maxevent
    then record u { is_over = false; handlers = u.handlers ++ rebind u.rebinders }
    else u

-- A click on `o.maxer`.
unfoldable pub click_maxer : Ui → Ui
unfolding fire
click_maxer u = if is_hover u.maxevent then u else fire u.handlers u

-- The handlers of `o.miner` and of `o.min`.
unfoldable pub minimise : Ui → Ui
minimise u = record u {
  max_shown = false;
  mid_shown = false;
  min_shown = some true;
  cookie = some "min";
}

unfoldable pub restore : Ui → Ui
restore u =
    let m : Bool = if is_max u.rendo then true else u.max_shown in
    record u {
      min_shown = some false;
      mid_shown =
          if not u.hidemid_on_max then true else if is_mid u.rendo then true else u.mid_shown;
      max_shown = m;
      cookie = if m then some "max" else some "mid";
    }

-- `onData` where the message is in the box: its end is shown, or the box blinks.
unfoldable pub arrive : Ui → Ui
unfolding blink
arrive u = if u.max_shown then record u { scrolls = suc u.scrolls } else blink u

-- What a visitor does, what timers do, and a message that comes.
pub data UiEvent : Type 0 where
  entered left maxer_clicked mider_clicked miner_clicked min_clicked timed ticked arrived : UiEvent

abbrev pub min_shows : Option Bool → Bool
min_shows none = false
min_shows (some b) = b

abbrev pub has_min : Option Bool → Bool
has_min none = false
has_min (some b) = true

-- The pointer reaches only what is shown: `o.maxer` with `o.mid`, `o.mider` with `o.max`, and an
-- `o.miner` with `o.mid`, or with `o.max` under `hidemidOnMax`.
unfoldable pub ui_step : UiEvent → Ui → Ui
unfolding enter leave click_maxer close_chat minimise restore timer_runs blink_tick arrive
ui_step entered u = if u.mid_shown then enter u else u
ui_step left u = leave u
ui_step maxer_clicked u = if u.mid_shown then click_maxer u else u
ui_step mider_clicked u = if u.max_shown then close_chat u else u
ui_step miner_clicked u =
    if has_min u.min_shown && (u.mid_shown || (u.hidemid_on_max && u.max_shown))
    then minimise u
    else u
ui_step min_clicked u = if min_shows u.min_shown then restore u else u
ui_step timed u = timer_runs u
ui_step ticked u = blink_tick u
ui_step arrived u = arrive u

unfoldable pub ui_run : List UiEvent → Ui → Ui
unfolding ui_step
ui_run [] u = u
ui_run (e ∷ es) u = ui_run es (ui_step e u)
