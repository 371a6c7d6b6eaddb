-- ===== src/Oms/Hint.antt =====
-- The version that is found, and who is shown the hint.
use cmoon.Base.{
  ℕ, zero, suc, ◌+◌, ◌<◌, ◌≡◌, refl, ap, ◌∙◌, Bool, true, false, not, ◌&&◌, ◌||◌, List, [], ◌∷◌,
  none, some, ltb, if◌then◌else◌, arith, String,
}
use cmoon.Oms.{
  ie_loop, ie_of, ie, is_low, Oms, on_appinfo, show_hint, later, need_again, on_edit, remove_camer,
  on_remove,
}

ie_loop_end :
    (f version v : ℕ)
    → version < f + suc v
    → ie_loop (suc f) version v ≡ some (if ltb version 10 && ltb v version then version else suc v)
unfolding ie_loop
ie_loop_end zero version v h = ground (arith, h)
ie_loop_end (suc f) version v h = ground (arith, ie_loop_end f version (suc v) (omega (arith, h)))

pub ie_loop-ie :
    (version : ℕ)
    → (ie_loop (suc version) version 3
        ≡ some (if ltb version 10 && ltb 3 version then version else 4))
      × (ie version ≡ (if ltb version 10 && ltb 4 version then some version else none))
unfolding ie
ie_loop-ie version =
    let e : ie_loop (suc version) version 3
        ≡ some (if ltb version 10 && ltb 3 version then version else 4) =
      ie_loop_end version version 3 (omega arith) in
    (e, ap ie_of e ∙ ground arith)

-- What happens to the pages of an operator, one after the other: a page is ready, the hint is put
-- off, the answers and clicks that are not about it, and the end of the cookie after a day.
pub data Event : Type 0 where
  ready : Event
  put_off : Event
  told : ℕ → Event
  switched : Event
  saved : Event
  removing : String → Event
  removed : Bool → String → Event
  expired : Event

module _ (version : ℕ) where
  -- Another page shows no hint at first, and keeps the cookie.
  unfoldable pub step : Event → Oms → Oms
  unfolding show_hint later on_appinfo need_again on_edit remove_camer on_remove
  step ready o = show_hint version (record o { hint_shown = false; clients = 0 })
  step put_off o = later o
  step (told tune) o = on_appinfo tune o
  step switched o = need_again o
  step saved o = on_edit o
  step (removing u) o = remove_camer u o
  step (removed b u) o = on_remove b u o
  step expired o = record o { is_ignored = false }

  unfoldable pub run : List Event → Oms → Oms
  unfolding step
  run [] o = o
  run (e ∷ es) o = run es (step e o)

  -- The hint is shown to IE 5 and 6 only, and not with the cookie.
  abbrev pub IsDue : Oms → Type 0
  IsDue o = (not o.hint_shown || ((ltb 4 version && ltb version 7) && not o.is_ignored)) ≡ true

  is_low-ie : is_low (ie version) ≡ (ltb 4 version && ltb version 7)
  is_low-ie = ap is_low (ie_loop-ie version).1 ∙ ground arith

  step-IsDue : (e : Event) (o : Oms) → IsDue o → IsDue (step e o)
  unfolding step show_hint later on_appinfo need_again on_edit remove_camer on_remove
  step-IsDue ready o h = ground (arith, is_low-ie)
  step-IsDue put_off o h = refl
  step-IsDue (told tune) o h = ground (arith, h)
  step-IsDue switched o h = h
  step-IsDue saved o h = h
  step-IsDue (removing u) o h = h
  step-IsDue (removed b u) o h = ground (arith, h)
  step-IsDue expired o h = ground (arith, h)

  -- From a page without the hint, whatever happens to it and the pages behind it: the hint is shown
  -- only to IE 5 and 6, and only without the cookie that puts it off.
  pub run-IsDue : (es : List Event) (o : Oms) → IsDue o → IsDue (run es o)
  unfolding run
  run-IsDue [] o h = h
  run-IsDue (e ∷ es) o h = run-IsDue es (step e o) (step-IsDue e o h)
