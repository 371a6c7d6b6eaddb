-- ===== src/Box/Handlers.antt =====
-- What a click on the bar of the visitor's box does.
use cmoon.Base.{
  String, ◌≡◌, refl, true, false, not, ◌&&◌, List, [], ◌∷◌, Option, if◌then◌else◌, arith,
}
use cmoon.Box.{
  Ui, Options, Handler, opens, closes, is_max, is_min, is_hover, is_click, ui_at, init_ui, blink,
  stop_blink, blink_tick, open_chat, close_chat, timer_runs, handle, enter, leave, click_maxer,
  minimise, restore, UiEvent, entered, left, maxer_clicked, mider_clicked, miner_clicked,
  min_clicked, timed, ticked, arrived, arrive, ui_step, ui_run,
}
use cmoon.Box.Parts.{IsCoherent, box-IsCoherent}

-- `o.maxer` answers to clicks, with one handler: the one that changes what is shown, or under
-- `hidemidOnMax` always `openChat`.
pub record IsToggle (u : Ui) : Type 0 where
  pub clicks : is_click u.maxevent ≡ true
  pub no_timer : u.timers ≡ 0
  pub bound : u.handlers ≡ (if is_max u.rendo && not u.hidemid_on_max then closes else opens) ∷ []

handler_of : Ui → Handler
handler_of u = if is_max u.rendo && not u.hidemid_on_max then closes else opens

click_maxer_lem : (u : Ui) → IsToggle u → click_maxer u ≡ handle (handler_of u) u
unfolding click_maxer handler_of
click_maxer_lem u h = ground (arith, h.bound)

max_shown-handle :
    (k : Handler) (u : Ui) → (handle k u).max_shown ≡ (elim k [ opens ↦ true | closes ↦ false ])
unfolding handle open_chat close_chat stop_blink
max_shown-handle opens u = refl
max_shown-handle closes u = refl

handler_of_lem :
    (u : Ui) → handler_of u ≡ (if is_max u.rendo && not u.hidemid_on_max then closes else opens)
unfolding handler_of
handler_of_lem u = refl

handle-IsToggle : (k : Handler) (u : Ui) → IsToggle u → IsToggle (handle k u)
unfolding handle open_chat close_chat stop_blink
handle-IsToggle opens u h = ground arith
handle-IsToggle closes u h = ground arith

close-IsToggle : (u : Ui) → IsToggle u → IsToggle (close_chat u)
unfolding close_chat
close-IsToggle u h = ground arith

enter_same : (u : Ui) → IsToggle u → enter u ≡ u
unfolding enter
enter_same u h = ground arith

ui_step-IsToggle : (e : UiEvent) (u : Ui) → IsToggle u → IsToggle (ui_step e u)
unfolding ui_step leave minimise restore timer_runs blink_tick arrive blink
ui_step-IsToggle entered u h = ground (arith, enter_same u h)
ui_step-IsToggle left u h = ground arith
ui_step-IsToggle maxer_clicked u h =
    ground (arith, click_maxer_lem u h, handle-IsToggle (handler_of u) u h)
ui_step-IsToggle mider_clicked u h = ground (arith, close-IsToggle u h)
ui_step-IsToggle miner_clicked u h = ground arith
ui_step-IsToggle min_clicked u h = ground arith
ui_step-IsToggle timed u h = ground arith
ui_step-IsToggle ticked u h = ground arith
ui_step-IsToggle arrived u h = ground arith

ui_run-IsToggle : (es : List UiEvent) (u : Ui) → IsToggle u → IsToggle (ui_run es u)
unfolding ui_run
ui_run-IsToggle [] u h = h
ui_run-IsToggle (e ∷ es) u h = ui_run-IsToggle es (ui_step e u) (ui_step-IsToggle e u h)

init_ui-IsToggle :
    (opts : Options) (cookie : Option String)
    → is_hover opts.maxevent ≡ false
    → IsToggle (init_ui opts cookie)
unfolding init_ui ui_at
init_ui-IsToggle opts cookie h = ground arith

toggled :
    (u : Ui)
    → IsToggle u
    → IsCoherent u
    → u.mid_shown ≡ true
    → (click_maxer u).max_shown ≡ (if u.hidemid_on_max then true else not u.max_shown)
toggled u t h s =
    ground (arith, click_maxer_lem u t, max_shown-handle (handler_of u) u, handler_of_lem u)

-- On a page that does not start minimised under `hidemidOnMax`, whose `maxevent` is not
-- `mouseenter`: after any events, a click on the bar while it is shown shows the messages if they
-- are hidden and hides them if they are shown, and under `hidemidOnMax` it shows them.
maxer_toggles :
    (opts : Options) (cookie : Option String) (es : List UiEvent)
    → (opts.hidemid_on_max && is_min (init_ui opts cookie).rendo) ≡ false
    → is_hover opts.maxevent ≡ false
    → let u = ui_run es (init_ui opts cookie) in
      u.mid_shown ≡ true
      → (click_maxer u).max_shown ≡ (if u.hidemid_on_max then true else not u.max_shown)
maxer_toggles opts cookie es h c s =
    toggled (ui_run es (init_ui opts cookie))
      (ui_run-IsToggle es (init_ui opts cookie) (init_ui-IsToggle opts cookie c))
      (box-IsCoherent opts cookie es h) s
