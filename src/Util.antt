-- ===== src/Util.antt =====
-- What all sites share, lib/js/bmoon.js: the escaping of texts and the waiting for a condition.
pub mod Escaping
pub mod Waiting
mod Examples
use cmoon.Base.{
  ℕ, zero, suc, ◌+◌, ◌/◌, Bool, true, false, List, [], ◌∷◌, ◌++◌, ltb, ◌==◌, if◌then◌else◌, Text,
  units,
}

-- `s.replace(/c/g, t)`
abbrev pub replace_all : ℕ → Text → Text → Text
replace_all c t [] = []
replace_all c t (x ∷ s) = (if x == c then t else x ∷ []) ++ replace_all c t s

-- `stripHTML`
unfoldable pub strip_html : Text → Text
strip_html s =
    replace_all b'"' (units "&quot;")
      (replace_all b'<' (units "&lt;") (replace_all b'>' (units "&gt;") s))

-- How a call of `after` ends: it waits for 100 ms, runs the function, or gives up.
pub data Outcome : Type 0 where
  waits ran gave_up : Outcome

-- `sec || 10`
abbrev pub seconds : ℕ → ℕ
seconds zero = 10
seconds (suc n) = suc n

-- One call of `after`, where the condition holds or not, with the counter `exetime` before and behind
-- it. `parseInt(exetime * (100 / 1000))` is the tenth part, rounded down.
unfoldable pub after : ℕ → Bool → ℕ → Outcome × ℕ
after sec until exetime =
    if ltb (seconds sec) (exetime / 10)
    then (gave_up, 0)
    else if until
    then (ran, 0)
    else (waits, suc exetime)

-- The calls that the timers make, with what the condition is at each.
unfoldable pub calls : ℕ → List Bool → ℕ → Outcome × ℕ
calls sec [] exetime = (waits, exetime)
calls sec (b ∷ bs) exetime =
    let (o, n) = after sec b exetime in
    let rest = calls sec bs n in elim o [ waits ↦ rest | ran ↦ (ran, n) | gave_up ↦ (gave_up, n) ]
