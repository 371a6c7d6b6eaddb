-- ===== src/Box/Kept.antt =====
-- The cookie of the visitor's box, and the next page.
use cmoon.Base.{
  String, ◌≡◌, refl, Bool, true, false, ◌&&◌, List, [], ◌∷◌, Option, some, if◌then◌else◌, arith,
}
use cmoon.Box.{
  Ui, Options, max, mid, Handler, opens, closes, is_max, is_min, part_named, ui_at, init_ui, blink,
  stop_blink, blink_tick, open_chat, close_chat, timer_runs, handle, fire, enter, leave,
  click_maxer, minimise, restore, UiEvent, entered, left, maxer_clicked, mider_clicked,
  miner_clicked, min_clicked, timed, ticked, arrived, arrive, min_shows, has_min, ui_step, ui_run,
}
use cmoon.Box.Parts.{
  IsCoherent, Opened, handle-Opened, Opened-mid, ui_step-IsCoherent, box-IsCoherent, fire_keeps,
}

-- What is shown is what a page that starts with the cookie of `u` shows.
pub record IsKept (opts : Options) (u : Ui) : Type 0 where
  pub same_hidemid : u.hidemid_on_max ≡ opts.hidemid_on_max
  pub same_minable : has_min u.min_shown ≡ opts.minable
  pub kept_max : u.max_shown ≡ (ui_at opts u.cookie (part_named opts.minable u.cookie)).max_shown
  pub kept_mid : u.mid_shown ≡ (ui_at opts u.cookie (part_named opts.minable u.cookie)).mid_shown
  pub kept_min : u.min_shown ≡ (ui_at opts u.cookie (part_named opts.minable u.cookie)).min_shown

handle-IsKept :
    (opts : Options) (k : Handler) (u : Ui) → Opened u → IsKept opts u → IsKept opts (handle k u)
unfolding handle open_chat close_chat stop_blink part_named ui_at
handle-IsKept opts opens u (s, h) p = ground arith
handle-IsKept opts closes u (s, h) p = ground arith

abbrev Both : Options → Ui → Type 0
Both opts u = Opened u × IsKept opts u

handle-Both : (opts : Options) (k : Handler) (u : Ui) → Both opts u → Both opts (handle k u)
handle-Both opts k u (o, p) = (handle-Opened k u o, handle-IsKept opts k u o p)

fire-IsKept :
    (opts : Options) (u : Ui)
    → u.mid_shown ≡ true
    → IsCoherent u
    → IsKept opts u
    → IsKept opts (fire u.handlers u)
fire-IsKept opts u s h p =
    (fire_keeps (Both opts) (handle-Both opts) u.handlers u (Opened-mid u s h, p)).1

enter-IsKept :
    (opts : Options) (u : Ui)
    → IsKept opts (fire u.handlers u)
    → IsKept opts u
    → IsKept opts (enter u)
unfolding enter
enter-IsKept opts u f p = ground (arith, f, p)

close-IsKept :
    (opts : Options) (u : Ui)
    → u.max_shown ≡ true
    → IsCoherent u
    → IsKept opts u
    → IsKept opts (close_chat u)
unfolding close_chat part_named ui_at
close-IsKept opts u s h p = ground arith

minimise-IsKept :
    (opts : Options) (u : Ui)
    → has_min u.min_shown ≡ true
    → IsKept opts u
    → IsKept opts (minimise u)
unfolding minimise part_named ui_at
minimise-IsKept opts u s p = ground arith

part_named_if :
    (minable m : Bool)
    → part_named minable (if m then some "max" else some "mid") ≡ (if m then max else mid)
unfolding part_named
part_named_if minable true = refl
part_named_if minable false = refl

restore-IsKept :
    (opts : Options) (u : Ui)
    → min_shows u.min_shown ≡ true
    → IsCoherent u
    → IsKept opts u
    → IsKept opts (restore u)
unfolding restore ui_at
restore-IsKept opts u s h p =
    ground (arith, part_named_if opts.minable (if is_max u.rendo then true else u.max_shown))

ui_step-IsKept :
    (opts : Options) (e : UiEvent) (u : Ui)
    → IsCoherent u
    → IsKept opts u
    → IsKept opts (ui_step e u)
unfolding ui_step leave click_maxer timer_runs blink_tick arrive blink
ui_step-IsKept opts entered u h p = ground (arith, fire-IsKept opts u, enter-IsKept opts u)
ui_step-IsKept opts left u h p = ground arith
ui_step-IsKept opts maxer_clicked u h p = ground (arith, fire-IsKept opts u)
ui_step-IsKept opts mider_clicked u h p = ground (arith, close-IsKept opts u)
ui_step-IsKept opts miner_clicked u h p = ground (arith, minimise-IsKept opts u)
ui_step-IsKept opts min_clicked u h p = ground (arith, restore-IsKept opts u)
ui_step-IsKept opts timed u h p = ground arith
ui_step-IsKept opts ticked u h p = ground arith
ui_step-IsKept opts arrived u h p = ground arith

ui_run-IsKept :
    (opts : Options) (es : List UiEvent) (u : Ui)
    → IsCoherent u
    → IsKept opts u
    → IsKept opts (ui_run es u)
unfolding ui_run
ui_run-IsKept opts [] u h p = p
ui_run-IsKept opts (e ∷ es) u h p =
    ui_run-IsKept opts es (ui_step e u) (ui_step-IsCoherent e u h) (ui_step-IsKept opts e u h p)

init_ui-IsKept :
    (opts : Options) (cookie : Option String)
    → opts.restore_ui ≡ true
    → IsKept opts (init_ui opts cookie)
unfolding init_ui ui_at
init_ui-IsKept opts cookie r = ground arith

-- Where the box restores itself from its cookie and the page does not start minimised under
-- `hidemidOnMax`: after any events, the next page shows the same parts.
pub init_ui-ui_run :
    (opts : Options) (cookie : Option String) (es : List UiEvent)
    → opts.restore_ui ≡ true
    → (opts.hidemid_on_max && is_min (init_ui opts cookie).rendo) ≡ false
    → let u = ui_run es (init_ui opts cookie) in
      let v = init_ui opts u.cookie in
      (v.max_shown ≡ u.max_shown) × (v.mid_shown ≡ u.mid_shown) × (v.min_shown ≡ u.min_shown)
unfolding init_ui ui_at ui_run
init_ui-ui_run opts cookie es r h =
    let start : Ui = init_ui opts cookie in
    let p : IsKept opts (ui_run es start) =
      ui_run-IsKept opts es start (box-IsCoherent opts cookie [] h)
        (init_ui-IsKept opts cookie r) in
    ground (arith, p.kept_max, p.kept_mid, p.kept_min)
