-- ===== src/Stats.antt =====
-- The plots of the visits, pop/fly/js/oms/stat.js and pop/fly/js/okol/okol.js. A data point is known
-- by its number; its day is what `Date` of the language makes of it, as an argument.
pub mod Hovering
mod Examples
use cmoon.Base.{
  ℕ, Bool, true, false, List, [], ◌∷◌, ◌++◌, Option, none, some, ◌==◌, if◌then◌else◌, Text, units,
  decimal,
}

-- `item` of the plot, with the two numbers of its data point.
pub record Item : Type 0 where
  pub datapoint : ℕ
  pub x : ℕ
  pub y : ℕ
  pub label : Text

-- `previousPoint`, and the elements with the id `tooltip`.
pub record Hover : Type 0 where
  pub previous_point : Option ℕ
  pub tooltips : List Text

abbrev pub is_point : Option ℕ → ℕ → Bool
is_point none d = false
is_point (some e) d = e == d

-- `$('#tooltip').remove()`, which finds the first one.
abbrev pub remove_tooltip : List Text → List Text
remove_tooltip [] = []
remove_tooltip (t ∷ ts) = ts

module _ (day : ℕ → Text) where
  -- The text in `plotOver` of stat.js.
  unfoldable pub tip_stat : Item → Text
  unfolding units decimal
  tip_stat i = day i.x ++ (units " " ++ (i.label ++ (units " : " ++ decimal i.y)))

  -- The text in `flotOver` of okol.js, for the option that is selected.
  unfoldable pub tip_okol : Text → Item → Text
  unfolding units decimal
  tip_okol option i = option ++ (units ": " ++ (day i.x ++ (units " = " ++ decimal i.y)))

module _ (tip : Item → Text) where
  -- `plotOver`, and `flotOver`
  unfoldable pub plot_over : Option Item → Hover → Hover
  plot_over none h = record { previous_point = none; tooltips = remove_tooltip h.tooltips }
  plot_over (some i) h = if is_point h.previous_point i.datapoint then h else record {
    previous_point = some i.datapoint;
    tooltips = remove_tooltip h.tooltips ++ tip i ∷ [];
  }

  unfoldable pub hovers : List (Option Item) → Hover → Hover
  unfolding plot_over
  hovers [] h = h
  hovers (o ∷ os) h = hovers os (plot_over o h)

-- A row of the answer to `getStat` of okol.js, and what is plotted of it.
pub record Stat : Type 0 where
  pub intime : ℕ
  pub count : ℕ

abbrev pub stdata : List Stat → List (ℕ × ℕ)
stdata [] = []
stdata (v ∷ vs) = (v.intime, v.count) ∷ stdata vs

-- The callback of `getStat`, with `none` for an answer without an array of rows.
unfoldable pub on_stat : Option (List Stat) → List (ℕ × ℕ) → List (ℕ × ℕ)
on_stat none ps = ps
on_stat (some vs) ps = stdata vs
