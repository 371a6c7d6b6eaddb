-- ===== src/Paging/Numerals/Signed.antt =====
-- `parseInt` of whole numbers with a sign and a percent sign.
use cmoon.Base.{
  ℕ, suc, ◌≡◌, refl, ap, ◌∙◌, Bool, true, false, [], ◌∷◌, ◌++◌, none, some, Text, decimal, arith,
}
use cmoon.Paging.Numerals.{
  plus, minus, parse_int, unsigned, digits_value, digit_of, is_hex, IsDigits, signed,
  digits_value-++, digits_value-digits_from, decimal-IsDigits, skip_space, parse_trimmed, is_space,
}

-- Nothing, or a percent sign.
abbrev pub unit_text : Bool → Text
unit_text true = b'%' ∷ []
unit_text false = []

digits_value-unit :
    (t : Text) (n : ℕ) (u : Bool)
    → IsDigits t
    → digits_value 10 none t ≡ some n
    → digits_value 10 none (t ++ unit_text u) ≡ some n
unfolding digits_value digit_of
digits_value-unit t n true h e =
    digits_value-++ none t (b'%' ∷ []) h ∙ ap (λ a. digits_value 10 a (b'%' ∷ [])) e
digits_value-unit t n false h e = digits_value-++ none t [] h ∙ e

is_hex-digits : (t : Text) (u : Bool) → IsDigits t → is_hex (t ++ unit_text u) ≡ false
is_hex-digits [] true h = refl
is_hex-digits [] false h = refl
is_hex-digits (c ∷ []) true (a, b, h) = ground arith
is_hex-digits (c ∷ []) false (a, b, h) = refl
is_hex-digits (c ∷ d ∷ t) u (a, b, (e, f, h)) = ground (arith, e, f)

unsigned-digits :
    (t : Text) (n : ℕ) (u : Bool)
    → IsDigits t
    → digits_value 10 none t ≡ some n
    → unsigned (t ++ unit_text u) ≡ some n
unfolding unsigned
unsigned-digits t n u h e = rw (is_hex-digits t u h) (digits_value-unit t n u h e)

unsigned-decimal : (n : ℕ) (u : Bool) → unsigned (decimal n ++ unit_text u) ≡ some n
unfolding decimal
unsigned-decimal n u =
    unsigned-digits (decimal n) n u (decimal-IsDigits n)
      (digits_value-digits_from (suc n) n (omega arith))

pub parse_int-minus : (n : ℕ) (u : Bool) → parse_int (b'-' ∷ (decimal n ++ unit_text u)) ≡ minus n
unfolding parse_int parse_trimmed skip_space is_space
parse_int-minus n u = ap (signed minus) (unsigned-decimal n u)

parse_int-digits :
    (t : Text) (n : ℕ) (u : Bool)
    → IsDigits t
    → digits_value 10 none t ≡ some n
    → parse_int (t ++ unit_text u) ≡ signed plus (unsigned (t ++ unit_text u))
unfolding parse_int parse_trimmed skip_space is_space digits_value
parse_int-digits [] n u h e = absurd (ground arith)
parse_int-digits (c ∷ t) n u (a, b, h) e = ground (arith, a, b)

pub parse_int-plus : (n : ℕ) (u : Bool) → parse_int (decimal n ++ unit_text u) ≡ plus n
unfolding decimal
parse_int-plus n u =
    parse_int-digits (decimal n) n u (decimal-IsDigits n)
      (digits_value-digits_from (suc n) n (omega arith))
    ∙ ap (signed plus) (unsigned-decimal n u)
