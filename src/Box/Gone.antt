-- ===== src/Box/Gone.antt =====
-- A box that starts minimised under `hidemidOnMax`.
use cmoon.Base.{String, ◌≡◌, true, false, List, [], ◌∷◌, Option, arith}
use cmoon.Box.{
  Ui, Options, min, ui_at, init_ui, blink, blink_tick, timer_runs, leave, restore, UiEvent, entered,
  left, maxer_clicked, mider_clicked, miner_clicked, min_clicked, timed, ticked, arrived, arrive,
  min_shows, ui_step, ui_run,
}

-- No part is shown, `o.min` included.
pub record IsGone (u : Ui) : Type 0 where
  pub no_max : u.max_shown ≡ false
  pub no_mid : u.mid_shown ≡ false
  pub no_min : min_shows u.min_shown ≡ false

ui_step-IsGone : (e : UiEvent) (u : Ui) → IsGone u → IsGone (ui_step e u)
unfolding ui_step leave timer_runs blink_tick arrive blink
ui_step-IsGone entered u h = ground arith
ui_step-IsGone left u h = ground arith
ui_step-IsGone maxer_clicked u h = ground arith
ui_step-IsGone mider_clicked u h = ground arith
ui_step-IsGone miner_clicked u h = ground arith
ui_step-IsGone min_clicked u h = ground arith
ui_step-IsGone timed u h = ground arith
ui_step-IsGone ticked u h = ground arith
ui_step-IsGone arrived u h = ground arith

ui_run-IsGone : (es : List UiEvent) (u : Ui) → IsGone u → IsGone (ui_run es u)
unfolding ui_run
ui_run-IsGone [] u h = h
ui_run-IsGone (e ∷ es) u h = ui_run-IsGone es (ui_step e u) (ui_step-IsGone e u h)

restored :
    (opts : Options) (cookie : Option String)
    → opts.hidemid_on_max ≡ true
    → (init_ui opts cookie).rendo ≡ min
    → IsGone (ui_step min_clicked (init_ui opts cookie))
unfolding ui_step restore init_ui ui_at
restored opts cookie h m = ground arith

-- Where the box can be minimised and has `hidemidOnMax`, and the page starts with it minimised: once
-- the button that it is minimised to is clicked, no part of it is shown again, whatever comes.
min_clicked-IsGone :
    (opts : Options) (cookie : Option String) (es : List UiEvent)
    → opts.hidemid_on_max ≡ true
    → (init_ui opts cookie).rendo ≡ min
    → IsGone (ui_run es (ui_step min_clicked (init_ui opts cookie)))
min_clicked-IsGone opts cookie es h m =
    ui_run-IsGone es (ui_step min_clicked (init_ui opts cookie)) (restored opts cookie h m)
