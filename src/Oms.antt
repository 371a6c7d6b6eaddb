-- ===== src/Oms.antt =====
-- The page of the operators, pop/fly/js/oms/oms.js, with `ie` of lib/js/bmoon.js for its hint on old
-- browsers. A browser has the number of its version of IE, 0 if it is another one.
pub mod Hint
mod Examples
use cmoon.Base.{
  ℕ, zero, suc, ◌+◌, ◌/◌, ◌%◌, Bool, true, false, not, ◌&&◌, List, [], ◌∷◌, ◌++◌, Option, none,
  some, String, str_eq, ltb, ◌==◌, if◌then◌else◌, Text,
}

-- The conditional comment shows its element to a version above the number; IE 10 and later take it
-- for a comment like any other.
abbrev pub is_above : ℕ → ℕ → Bool
is_above version v = ltb version 10 && ltb v version

-- The loop of `ie` from `v`, on fuel; `none` is that it is still running.
unfoldable pub ie_loop : ℕ → ℕ → ℕ → Option ℕ
ie_loop zero version v = none
ie_loop (suc f) version v =
    let rest = ie_loop f version (suc v) in if is_above version (suc v) then rest else some (suc v)

-- `v > 4 ? v : undef`
abbrev pub ie_of : Option ℕ → Option ℕ
ie_of none = none
ie_of (some v) = if ltb 4 v then some v else none

-- `ie`
unfoldable pub ie : ℕ → Option ℕ
unfolding ie_loop
ie version = ie_of (ie_loop (suc version) version 3)

-- `ie() && ie() < 7`
abbrev pub is_low : Option ℕ → Bool
is_low none = false
is_low (some v) = ltb v 7

-- The parts that are shown, the users with their nodes, the clients that were started, what was
-- posted, and the cookie that ignores the hint.
pub record Oms : Type 0 where
  pub hint_shown : Bool
  pub is_ignored : Bool
  pub indicator_shown : Bool
  pub needa_shown : Bool
  pub camers : List String
  pub clients : ℕ
  pub edits : ℕ
  pub removals : List String
  pub alerts : ℕ

-- `mgd.appinfo.tune & 8`
abbrev pub is_off : ℕ → Bool
is_off tune = (tune / 8) % 2 == 1

-- The function that `onready` waits with.
unfoldable pub on_appinfo : ℕ → Oms → Oms
on_appinfo tune o =
    if is_off tune
    then record o { indicator_shown = false; needa_shown = true }
    else record o { indicator_shown = true; clients = suc o.clients }

-- The end of `onready`.
unfoldable pub show_hint : ℕ → Oms → Oms
unfolding ie
show_hint version o =
    if is_low (ie version) && not o.is_ignored then record o { hint_shown = true } else o

-- `o.browserlater`
unfoldable pub later : Oms → Oms
later o = record o { hint_shown = false; is_ignored = true }

-- `o.icneeda`, and the answer.
unfoldable pub need_again : Oms → Oms
need_again o = record o { edits = suc o.edits }

unfoldable pub on_edit : Oms → Oms
on_edit o = record o { needa_shown = false }

abbrev pub without_camer : String → List String → List String
without_camer u [] = []
without_camer u (n ∷ ns) = if str_eq n u then ns else n ∷ without_camer u ns

-- `removeCamer`, and the answer.
unfoldable pub remove_camer : String → Oms → Oms
remove_camer u o = record o { removals = o.removals ++ u ∷ [] }

unfoldable pub on_remove : Bool → String → Oms → Oms
on_remove is_success u o =
    if is_success
    then record o { camers = without_camer u o.camers }
    else record o { alerts = suc o.alerts }
