-- ===== src/Demo/Place.antt =====
-- Places as texts, and a step of one.
use cmoon.Base.{
  ℕ, ◌+◌, ◌-◌, ◌≡◌, refl, sym, subst, Bool, true, false, [], ◌∷◌, ◌++◌, Text, decimal, leb, arith,
  Bool-cases, inl, inr,
}
use mathlib.Core.List.{append-nil}
use cmoon.Paging.Numerals.{Parsed, parse_int, IsDigits, decimal-IsDigits}
use cmoon.Paging.Numerals.Signed.{unit_text, parse_int-plus, parse_int-minus}
use cmoon.Demo.{difference, or_zero, next, previous, number_text, ends_in_percent, stepped}

-- A whole number, with a percent sign or without one.
abbrev pub place : ℕ → ℕ → Bool → Text
unfolding number_text
place a b u = number_text (difference a b) ++ unit_text u

ends_in_percent-percent : (t : Text) → ends_in_percent (t ++ b'%' ∷ []) ≡ true
ends_in_percent-percent [] = refl
ends_in_percent-percent (c ∷ []) = refl
ends_in_percent-percent (c ∷ d ∷ t) = ends_in_percent-percent (d ∷ t)

ends_in_percent-digits : (t : Text) → IsDigits t → ends_in_percent t ≡ false
ends_in_percent-digits [] h = refl
ends_in_percent-digits (c ∷ []) (a, b, h) = ground (arith, a)
ends_in_percent-digits (c ∷ d ∷ t) (a, b, h) = ends_in_percent-digits (d ∷ t) h

ends_in_percent-minus : (t : Text) → IsDigits t → ends_in_percent (b'-' ∷ t) ≡ false
ends_in_percent-minus [] h = refl
ends_in_percent-minus (d ∷ t) h = ends_in_percent-digits (d ∷ t) h

ends_in_percent-difference : (a b : ℕ) → ends_in_percent (number_text (difference a b)) ≡ false
unfolding number_text
ends_in_percent-difference a b = elim (Bool-cases (leb b a)) [
  | inl e ↦ rw e (ends_in_percent-digits (decimal (a - b)) (decimal-IsDigits (a - b)))
  | inr e ↦ rw e (ends_in_percent-minus (decimal (b - a)) (decimal-IsDigits (b - a)))
]

-- A place is read back.
parse_int-place : (a b : ℕ) (u : Bool) → parse_int (place a b u) ≡ difference a b
unfolding place number_text
parse_int-place a b u = elim (Bool-cases (leb b a)) [
  | inl e ↦ rw e (parse_int-plus (a - b) u)
  | inr e ↦ rw e (parse_int-minus (b - a) u)
]

or_zero-difference : (a b : ℕ) → or_zero (difference a b) ≡ difference a b
or_zero-difference a b = ground arith

pub next-difference : (a b : ℕ) → next (difference a b) ≡ difference (a + 1) b
next-difference a b = ground arith

pub previous-difference : (a b : ℕ) → previous (difference a b) ≡ difference a (b + 1)
previous-difference a b = ground arith

-- A step of a number that comes out as another.
pub stepped-place :
    (f : Parsed → Parsed) (a b c d : ℕ) (u : Bool)
    → f (difference a b) ≡ difference c d
    → stepped f (place a b u) ≡ place c d u
unfolding stepped place
stepped-place f a b c d true h =
    rw
      (
        ends_in_percent-percent (number_text (difference a b)),
        parse_int-place a b true,
        or_zero-difference a b,
        h,
      )
      refl
stepped-place f a b c d false h =
    let none_there : ends_in_percent (place a b false) ≡ false =
      subst (λ t. ends_in_percent t ≡ false) (sym (append-nil (number_text (difference a b))))
        (ends_in_percent-difference a b) in
    rw (none_there, parse_int-place a b false, or_zero-difference a b, h)
      (sym (append-nil (number_text (difference c d))))
