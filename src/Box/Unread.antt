-- ===== src/Box/Unread.antt =====
-- The blinking of the visitor's box.
use cmoon.Base.{String, ◌≡◌, true, false, not, ◌&&◌, List, [], ◌∷◌, Option, arith}
use cmoon.Box.{
  Ui, Options, max, Handler, opens, closes, ui_at, init_ui, blink, stop_blink, blink_tick,
  open_chat, close_chat, timer_runs, handle, fire, enter, leave, click_maxer, restore, UiEvent,
  entered, left, maxer_clicked, mider_clicked, miner_clicked, min_clicked, timed, ticked, arrived,
  arrive, min_shows, has_min, ui_step, ui_run,
}
use cmoon.Box.Parts.{fire_keeps}

-- A box that cannot be minimised blinks only while its messages are hidden, and its class goes with
-- the blinking.
pub record IsCalm (u : Ui) : Type 0 where
  pub fixed : has_min u.min_shown ≡ false
  pub unread : (u.is_blinking && u.max_shown) ≡ false
  pub clean : (u.is_dirty && not u.is_blinking) ≡ false

handle-IsCalm : (k : Handler) (u : Ui) → IsCalm u → IsCalm (handle k u)
unfolding handle open_chat close_chat stop_blink
handle-IsCalm opens u h = ground arith
handle-IsCalm closes u h = ground arith

enter-IsCalm : (u : Ui) → IsCalm (fire u.handlers u) → IsCalm u → IsCalm (enter u)
unfolding enter
enter-IsCalm u f h = ground (arith, f, h)

fire-IsCalm : (u : Ui) → IsCalm u → IsCalm (fire u.handlers u)
fire-IsCalm u h = fire_keeps IsCalm handle-IsCalm u.handlers u h

close-IsCalm : (u : Ui) → IsCalm u → IsCalm (close_chat u)
unfolding close_chat
close-IsCalm u h = ground arith

ui_step-IsCalm : (e : UiEvent) (u : Ui) → IsCalm u → IsCalm (ui_step e u)
unfolding ui_step leave click_maxer timer_runs blink_tick arrive blink
ui_step-IsCalm entered u h = ground (arith, enter-IsCalm u (fire-IsCalm u h) h)
ui_step-IsCalm left u h = ground arith
ui_step-IsCalm maxer_clicked u h = ground (arith, fire-IsCalm u h)
ui_step-IsCalm mider_clicked u h = ground (arith, close-IsCalm u h)
ui_step-IsCalm miner_clicked u h = ground arith
ui_step-IsCalm min_clicked u h = ground arith
ui_step-IsCalm timed u h = ground arith
ui_step-IsCalm ticked u h = ground arith
ui_step-IsCalm arrived u h = ground arith

ui_run-IsCalm : (es : List UiEvent) (u : Ui) → IsCalm u → IsCalm (ui_run es u)
unfolding ui_run
ui_run-IsCalm [] u h = h
ui_run-IsCalm (e ∷ es) u h = ui_run-IsCalm es (ui_step e u) (ui_step-IsCalm e u h)

init_ui-IsCalm :
    (opts : Options) (cookie : Option String) → opts.minable ≡ false → IsCalm (init_ui opts cookie)
unfolding init_ui ui_at
init_ui-IsCalm opts cookie h = ground arith

-- A box that cannot be minimised blinks, after any events, only while its messages are hidden, and
-- wears the class of blinking only while it blinks.
box-IsCalm :
    (opts : Options) (cookie : Option String) (es : List UiEvent)
    → opts.minable ≡ false
    → IsCalm (ui_run es (init_ui opts cookie))
box-IsCalm opts cookie es h = ui_run-IsCalm es (init_ui opts cookie) (init_ui-IsCalm opts cookie h)

-- A box that was minimised while its messages were shown, and gets a message before it is restored,
-- shows its messages and blinks on.
restored_blinks :
    (u : Ui)
    → u.max_shown ≡ false
    → min_shows u.min_shown ≡ true
    → u.rendo ≡ max
    → let v = ui_run (arrived ∷ min_clicked ∷ []) u in (v.max_shown ≡ true) × (v.is_blinking ≡ true)
unfolding ui_run ui_step restore arrive blink
restored_blinks u h s m = ground arith
