-- ===== src/Stats/Hovering.antt =====
-- Which tips are shown while the pointer is over a plot.
use cmoon.Base.{
  ℕ, ◌≡◌, refl, ap, ◌∙◌, ◌==◌, ==_iff, List, [], ◌∷◌, Option, none, some, Text, Bool-cases, inl,
  inr,
}
use cmoon.Stats.{Item, Hover, plot_over, hovers}

-- The point that is pointed to, and its tip.
abbrev pub point_of : Option Item → Option ℕ
point_of none = none
point_of (some i) = some i.datapoint

module _ (tip : ℕ → Text) where
  abbrev pub tips_of : Option ℕ → List Text
  tips_of none = []
  tips_of (some d) = tip d ∷ []

  abbrev pub last_point : Option ℕ → List (Option Item) → Option ℕ
  last_point p [] = p
  last_point p (o ∷ os) = last_point (point_of o) os

  abbrev pub shown : Option ℕ → Hover
  shown p = record { previous_point = p; tooltips = tips_of p }

  plot_over-shown :
      (o : Option Item) (p : Option ℕ)
      → plot_over (λ i. tip i.datapoint) o (shown p) ≡ shown (point_of o)
  unfolding plot_over
  plot_over-shown none none = refl
  plot_over-shown none (some d) = refl
  plot_over-shown (some i) none = refl
  plot_over-shown (some i) (some d) = elim (Bool-cases (d == i.datapoint)) [
    | inl e ↦ rw e (ap (λ c. shown (some c)) ((==_iff d i.datapoint).0 e))
    | inr e ↦ rw e refl
  ]

  -- Where the text of a tip is that of its data point: whatever the pointer comes over and leaves,
  -- the page has one tip, of the point that it is over now, and none if it is over none.
  hovers-tips_of :
      (os : List (Option Item)) (p : Option ℕ)
      → (hovers (λ i. tip i.datapoint) os (shown p)).tooltips ≡ tips_of (last_point p os)
  unfolding hovers
  hovers-tips_of [] p = refl
  hovers-tips_of (o ∷ os) p =
      ap (λ h. (hovers (λ i. tip i.datapoint) os h).tooltips) (plot_over-shown o p)
      ∙ hovers-tips_of os (point_of o)
