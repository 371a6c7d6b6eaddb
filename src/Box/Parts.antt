-- ===== src/Box/Parts.antt =====
-- Which parts of the visitor's box are shown, after any events.
use cmoon.Base.{
  String, ◌≡◌, refl, Bool, true, false, not, ◌&&◌, ◌||◌, List, [], ◌∷◌, Option, none, some,
  if◌then◌else◌, arith,
}
use cmoon.Box.{
  Ui, Options, Part, Handler, opens, closes, is_max, is_min, part_named, ui_at, init_ui, blink,
  stop_blink, blink_tick, open_chat, close_chat, timer_runs, handle, fire, enter, leave,
  click_maxer, minimise, restore, UiEvent, entered, left, maxer_clicked, mider_clicked,
  miner_clicked, min_clicked, timed, ticked, arrived, arrive, min_shows, ui_step, ui_run,
}

-- `o.min` is shown alone, `o.max` under `hidemidOnMax` too, and else with `o.mid`; `o.rendo` is the
-- part that the box returns to.
pub record IsCoherent (u : Ui) : Type 0 where
  pub apart : (min_shows u.min_shown && (u.max_shown || u.mid_shown)) ≡ false
  pub alone : (u.hidemid_on_max && (u.max_shown && u.mid_shown)) ≡ false
  pub beside : (not u.hidemid_on_max && (u.max_shown && not u.mid_shown)) ≡ false
  pub rendered : (u.max_shown && not (is_max u.rendo)) ≡ false
  pub standing : (u.mid_shown && (is_max u.rendo && not u.max_shown)) ≡ false
  pub returns : (u.hidemid_on_max && is_min u.rendo) ≡ false
  pub visible : (u.max_shown || (u.mid_shown || min_shows u.min_shown)) ≡ true

-- What the handlers of `o.maxer` need and leave: `o.min` is not shown.
abbrev pub Opened : Ui → Type 0
Opened u = (min_shows u.min_shown ≡ false) × IsCoherent u

pub handle-Opened : (h : Handler) (u : Ui) → Opened u → Opened (handle h u)
unfolding handle open_chat close_chat stop_blink
handle-Opened opens u (s, h) = (s, ground arith)
handle-Opened closes u (s, h) = (s, ground arith)

-- What every handler keeps, an event keeps.
pub fire_keeps :
    (P : Ui → Type 0)
    → ((k : Handler) (u : Ui) → P u → P (handle k u))
    → (hs : List Handler) (u : Ui) → P u
    → P (fire hs u)
unfolding fire
fire_keeps P keep [] u h = h
fire_keeps P keep (k ∷ hs) u h = fire_keeps P keep hs (handle k u) (keep k u h)

fire-Opened : (hs : List Handler) (u : Ui) → Opened u → Opened (fire hs u)
fire-Opened hs u h = fire_keeps Opened handle-Opened hs u h

-- A change of the classes, handlers and timers.
abbrev pub SameParts : Ui → Ui → Type 0
SameParts u v =
    (v.hidemid_on_max ≡ u.hidemid_on_max)
    × (v.max_shown ≡ u.max_shown)
    × (v.mid_shown ≡ u.mid_shown)
    × (v.min_shown ≡ u.min_shown)
    × (v.rendo ≡ u.rendo)

of_SameParts : (u v : Ui) → SameParts u v → IsCoherent u → IsCoherent v
of_SameParts u v e h = ground (arith, e)

pub Opened-mid : (u : Ui) → u.mid_shown ≡ true → IsCoherent u → Opened u
Opened-mid u s h = (ground arith, h)

enter-IsCoherent : (u : Ui) → u.mid_shown ≡ true → IsCoherent u → IsCoherent (enter u)
unfolding enter
enter-IsCoherent u s h = ground (
  arith,
  of_SameParts (fire u.handlers u) (let v : Ui = fire u.handlers u in record v { is_over = true })
      (refl, refl, refl, refl, refl) (fire-Opened u.handlers u (Opened-mid u s h)).1,
)

leave-IsCoherent : (u : Ui) → IsCoherent u → IsCoherent (leave u)
unfolding leave
leave-IsCoherent u h = ground arith

click_maxer-IsCoherent : (u : Ui) → u.mid_shown ≡ true → IsCoherent u → IsCoherent (click_maxer u)
unfolding click_maxer
click_maxer-IsCoherent u s h = ground (arith, (fire-Opened u.handlers u (Opened-mid u s h)).1)

minimise-IsCoherent : (u : Ui) → IsCoherent u → IsCoherent (minimise u)
unfolding minimise
minimise-IsCoherent u h = ground arith

restore-IsCoherent : (u : Ui) → IsCoherent u → IsCoherent (restore u)
unfolding restore
restore-IsCoherent u h = ground arith

timer_runs-IsCoherent : (u : Ui) → IsCoherent u → IsCoherent (timer_runs u)
unfolding timer_runs
timer_runs-IsCoherent u h = ground arith

blink_tick-IsCoherent : (u : Ui) → IsCoherent u → IsCoherent (blink_tick u)
unfolding blink_tick
blink_tick-IsCoherent u h = ground arith

arrive-IsCoherent : (u : Ui) → IsCoherent u → IsCoherent (arrive u)
unfolding arrive blink
arrive-IsCoherent u h = ground arith

pub close-IsCoherent : (u : Ui) → u.max_shown ≡ true → IsCoherent u → IsCoherent (close_chat u)
unfolding close_chat
close-IsCoherent u s h = ground arith

pub ui_step-IsCoherent : (e : UiEvent) (u : Ui) → IsCoherent u → IsCoherent (ui_step e u)
unfolding ui_step
ui_step-IsCoherent entered u h = ground (arith, enter-IsCoherent u)
ui_step-IsCoherent left u h = leave-IsCoherent u h
ui_step-IsCoherent maxer_clicked u h = ground (arith, click_maxer-IsCoherent u)
ui_step-IsCoherent mider_clicked u h = ground (arith, close-IsCoherent u)
ui_step-IsCoherent miner_clicked u h = ground (arith, minimise-IsCoherent u)
ui_step-IsCoherent min_clicked u h = ground (arith, restore-IsCoherent u)
ui_step-IsCoherent timed u h = timer_runs-IsCoherent u h
ui_step-IsCoherent ticked u h = blink_tick-IsCoherent u h
ui_step-IsCoherent arrived u h = arrive-IsCoherent u h

pub ui_run-IsCoherent : (es : List UiEvent) (u : Ui) → IsCoherent u → IsCoherent (ui_run es u)
unfolding ui_run
ui_run-IsCoherent [] u h = h
ui_run-IsCoherent (e ∷ es) u h = ui_run-IsCoherent es (ui_step e u) (ui_step-IsCoherent e u h)

pub ui_at-IsCoherent :
    (opts : Options) (cookie : Option String) (p : Part)
    → (opts.hidemid_on_max && is_min p) ≡ false
    → (is_min p && not opts.minable) ≡ false
    → IsCoherent (ui_at opts cookie p)
unfolding ui_at
ui_at-IsCoherent opts cookie p h k = ground arith

pub part_named-minable : (m : Bool) (s : Option String) → (is_min (part_named m s) && not m) ≡ false
unfolding part_named
part_named-minable m none = refl
part_named-minable m (some s) = ground arith

-- From a page that does not start minimised under `hidemidOnMax`, after any events: one of the three
-- parts is shown; `o.min` is shown alone; `o.max` is shown alone under `hidemidOnMax` and with
-- `o.mid` otherwise; `o.max` is only shown while the box returns to it.
pub box-IsCoherent :
    (opts : Options) (cookie : Option String) (es : List UiEvent)
    → (opts.hidemid_on_max && is_min (init_ui opts cookie).rendo) ≡ false
    → IsCoherent (ui_run es (init_ui opts cookie))
unfolding init_ui ui_at
box-IsCoherent opts cookie es h =
    let named : Option String = if opts.restore_ui then cookie else opts.default_ui in
    let p : Part = part_named opts.minable named in
    ui_run-IsCoherent es (ui_at opts cookie p)
      (ui_at-IsCoherent opts cookie p h (part_named-minable opts.minable named))
