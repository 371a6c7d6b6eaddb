-- ===== src/Util/Escaping.antt =====
-- What the escaping of texts leaves.
use cmoon.Base.{
  ap, sym, ◌∙◌, ℕ, ◌≡◌, ◌↔◌, refl, Bool, false, ◌||◌, [], ◌∷◌, ◌++◌, ◌==◌, ==_iff, Text, units,
  arith, Bool-cases, inl, inr,
}
use cmoon.Util.{replace_all, strip_html}

abbrev pub has_unit : ℕ → Text → Bool
has_unit c [] = false
has_unit c (x ∷ s) = (x == c) || has_unit c s

has_unit-append : (c : ℕ) (s t : Text) → has_unit c (s ++ t) ≡ (has_unit c s || has_unit c t)
has_unit-append c [] t = refl
has_unit-append c (x ∷ s) t = ground (arith, has_unit-append c s t)

-- The unit that is replaced is gone if the text in its place has none.
replaced : (c : ℕ) (t s : Text) → has_unit c t ≡ false → has_unit c (replace_all c t s) ≡ false
replaced c t [] h = refl
replaced c t (x ∷ s) h = elim (Bool-cases (x == c)) [
  | inl e ↦ rw (e, has_unit-append c t (replace_all c t s), h) (replaced c t s h)
  | inr e ↦ rw e (ground (arith, e, replaced c t s h))
]

-- Another unit is there as it was if the text in the place has none of it.
kept :
    (c d : ℕ) (t s : Text)
    → has_unit d t ≡ false
    → (d == c) ≡ false
    → has_unit d (replace_all c t s) ≡ has_unit d s
kept c d t [] h k = refl
kept c d t (x ∷ s) h k = elim (Bool-cases (x == c)) [
  | inl e ↦
      let same : x ≡ c = (==_iff x c).0 e in
      let other : (x == d) ≡ false = ground (arith, k, same) in
      rw (e, has_unit-append d t (replace_all c t s), h, other) (kept c d t s h k)
  | inr e ↦ rw e (ap (λ r. (x == d) || r) (kept c d t s h k))
]

unchanged : (c : ℕ) (t s : Text) → has_unit c s ≡ false → replace_all c t s ≡ s
unchanged c t [] h = refl
unchanged c t (x ∷ s) h = ground (arith, h, unchanged c t s)

module _ (s : Text) where
  -- An escaped text has no `<`, no `>` and no `"`.
  strip_html-has_unit :
      (has_unit b'<' (strip_html s) ≡ false)
      × (has_unit b'>' (strip_html s) ≡ false)
      × (has_unit b'"' (strip_html s) ≡ false)
  unfolding strip_html units
  strip_html-has_unit =
      let u = replace_all b'>' (units "&gt;") s in
      let v = replace_all b'<' (units "&lt;") u in
      (
        kept b'"' b'<' (units "&quot;") v refl refl ∙ replaced b'<' (units "&lt;") u refl,
        kept b'"' b'>' (units "&quot;") v refl refl
            ∙ kept b'<' b'>' (units "&lt;") u refl refl
            ∙ replaced b'>' (units "&gt;") s refl,
        replaced b'"' (units "&quot;") v refl,
      )

  -- A text is left as it is exactly when it has none of the three.
  pub strip_html_iff :
      (strip_html s ≡ s)
      ↔ ((has_unit b'<' s ≡ false) × (has_unit b'>' s ≡ false) × (has_unit b'"' s ≡ false))
  unfolding strip_html
  strip_html_iff = (
    λ e.
        let (a, b, c) = strip_html-has_unit in
        (
          ap (has_unit b'<') (sym e) ∙ a,
          ap (has_unit b'>') (sym e) ∙ b,
          ap (has_unit b'"') (sym e) ∙ c,
        ),
    λ h.
        let (a, b, c) = h in
        ap (λ u. replace_all b'"' (units "&quot;") (replace_all b'<' (units "&lt;") u))
          (unchanged b'>' (units "&gt;") s b)
        ∙ ap (replace_all b'"' (units "&quot;")) (unchanged b'<' (units "&lt;") s a)
        ∙ unchanged b'"' (units "&quot;") s c,
  )
