-- ===== src/Paging/Numerals.antt =====
-- `parseInt` of the language, without a radix, as far as whole numbers below 2 ^ 53 go.
pub mod Signed
use cmoon.Base.{
  ℕ, zero, suc, ◌+◌, ◌-◌, ◌*◌, ◌/◌, ◌%◌, ◌≤◌, ◌<◌, ◌≡◌, refl, Bool, false, ◌&&◌, ◌||◌, [], ◌∷◌,
  ◌++◌, Option, none, some, ltb, leb, ◌==◌, if◌then◌else◌, Text, digits_from, decimal, arith, inl,
  inr, ◌⊎◌, subst, sym, ap, ◌∙◌,
}

pub data Parsed : Type 0 where
  nan : Parsed
  minus : ℕ → Parsed
  plus : ℕ → Parsed

unfoldable is_space : ℕ → Bool
is_space u =
    (leb 9 u && leb u 13)
    || ((u == 32)
        || ((u == 160)
            || ((u == 0x1680)
                || ((leb 0x2000 u && leb u 0x200a)
                    || ((u == 0x2028)
                        || ((u == 0x2029)
                            || ((u == 0x202f)
                                || ((u == 0x205f) || ((u == 0x3000) || (u == 0xfeff))))))))))

unfoldable skip_space : Text → Text
skip_space [] = []
skip_space (u ∷ us) = if is_space u then skip_space us else u ∷ us

-- The value of a digit, or 36.
unfoldable digit_of : ℕ → ℕ
digit_of u =
    if leb 48 u && leb u 57
    then u - 48
    else if leb 65 u && leb u 90
    then u - 55
    else if leb 97 u && leb u 122
    then u - 87
    else 36

abbrev value : Option ℕ → ℕ
value none = 0
value (some n) = n

-- The longest run of digits.
unfoldable digits_value : ℕ → Option ℕ → Text → Option ℕ
digits_value r acc [] = acc
digits_value r acc (u ∷ us) =
    let rest = digits_value r (some (r * value acc + digit_of u)) us in
    if ltb (digit_of u) r then rest else acc

abbrev is_hex : Text → Bool
is_hex (a ∷ b ∷ us) = (a == 48) && ((b == 120) || (b == 88))
is_hex (a ∷ []) = false
is_hex [] = false

abbrev skip_two : Text → Text
skip_two (a ∷ b ∷ us) = us
skip_two (a ∷ []) = []
skip_two [] = []

unfoldable unsigned : Text → Option ℕ
unsigned t = if is_hex t then digits_value 16 none (skip_two t) else digits_value 10 none t

abbrev signed : (ℕ → Parsed) → Option ℕ → Parsed
signed sign none = nan
signed sign (some n) = sign n

unfoldable parse_trimmed : Text → Parsed
parse_trimmed [] = nan
parse_trimmed (u ∷ us) =
    if u == 45
    then signed minus (unsigned us)
    else if u == 43
    then signed plus (unsigned us)
    else signed plus (unsigned (u ∷ us))

unfoldable pub parse_int : Text → Parsed
unfolding parse_trimmed skip_space unsigned is_space digits_value digit_of
parse_int t = parse_trimmed (skip_space t)

abbrev pub IsDigits : Text → Type 0
IsDigits [] = Unit
IsDigits (u ∷ us) = (48 ≤ u) × (u < 58) × IsDigits us

IsDigits-++ : (xs ys : Text) → IsDigits xs → IsDigits ys → IsDigits (xs ++ ys)
IsDigits-++ [] ys h k = k
IsDigits-++ (x ∷ xs) ys (a, b, h) k = (a, b, IsDigits-++ xs ys h k)

digit_of_digit : (u : ℕ) → 48 ≤ u → u < 58 → digit_of u ≡ u - 48
unfolding digit_of
digit_of_digit u h k = ground arith

digits_value_step :
    (acc : Option ℕ) (u : ℕ) (us : Text)
    → 48 ≤ u
    → u < 58
    → digits_value 10 acc (u ∷ us) ≡ digits_value 10 (some (10 * value acc + (u - 48))) us
unfolding digits_value
digits_value_step acc u us h k = ground (arith, digit_of_digit u h k)

digits_value-++ :
    (acc : Option ℕ) (xs ys : Text)
    → IsDigits xs
    → digits_value 10 acc (xs ++ ys) ≡ digits_value 10 (digits_value 10 acc xs) ys
unfolding digits_value
digits_value-++ acc [] ys h = refl
digits_value-++ acc (x ∷ xs) ys (a, b, h) =
    let next : Option ℕ = some (10 * value acc + (x - 48)) in
    cc (
      digits_value_step acc x (xs ++ ys) a b,
      digits_value_step acc x xs a b,
      digits_value-++ next xs ys h,
    )

le_or_lt : (m n : ℕ) → (m ≤ n) ⊎ (n < m)
le_or_lt m n = ground arith

digits_from_short : (f n : ℕ) → n < 10 → digits_from (suc f) n ≡ (48 + n) ∷ []
unfolding digits_from
digits_from_short f n h = ground arith

digits_from_long :
    (f n : ℕ) → 10 ≤ n → digits_from (suc f) n ≡ digits_from f (n / 10) ++ (48 + n % 10) ∷ []
unfolding digits_from
digits_from_long f n h = ground arith

digits_from-IsDigits : (f n : ℕ) → IsDigits (digits_from f n)
unfolding digits_from
digits_from-IsDigits zero n = tt
digits_from-IsDigits (suc f) n = elim (le_or_lt 10 n) [
  | inr h ↦
      let one : IsDigits ((48 + n) ∷ []) = (omega arith, omega arith, tt) in
      subst IsDigits (sym (digits_from_short f n h)) one
  | inl h ↦
      let last : IsDigits ((48 + n % 10) ∷ []) = (omega arith, omega arith, tt) in
      subst IsDigits (sym (digits_from_long f n h)) (
        IsDigits-++ (digits_from f (n / 10)) ((48 + n % 10) ∷ []) (digits_from-IsDigits f (n / 10))
          last)
]

digits_value_one :
    (acc : Option ℕ) (d : ℕ)
    → d < 10
    → digits_value 10 acc ((48 + d) ∷ []) ≡ some (10 * value acc + d)
unfolding digits_value
digits_value_one acc d h = ground (arith, digit_of_digit (48 + d) (omega arith) (omega arith))

digits_value-digits_from : (f n : ℕ) → n < f → digits_value 10 none (digits_from f n) ≡ some n
digits_value-digits_from zero n h = absurd (omega arith)
digits_value-digits_from (suc f) n h = elim (le_or_lt 10 n) [
  | inr k ↦
      ap (digits_value 10 none) (digits_from_short f n k)
      ∙ (digits_value_one none n k ∙ ap some (omega arith))
  | inl k ↦
      let front : Text = digits_from f (n / 10) in
      let less : n / 10 < f = omega arith in
      ground (
        arith,
        digits_from_long f n k,
        digits_value-++ none front ((48 + n % 10) ∷ []) (digits_from-IsDigits f (n / 10)),
        digits_value-digits_from f (n / 10) less,
        digits_value_one (some (n / 10)) (n % 10) (omega arith),
      )
]

parse_digits :
    (t : Text) (n : ℕ) → IsDigits t → digits_value 10 none t ≡ some n → parse_int t ≡ plus n
unfolding parse_int parse_trimmed skip_space is_space unsigned digits_value
parse_digits [] n h e = absurd (ground arith)
parse_digits (u ∷ []) n (a, b, h) e = ground (arith, a, b, e)
parse_digits (u ∷ v ∷ us) n (a, b, (c, d, h)) e = ground (arith, a, b, c, d, e)

pub parse_int-decimal : (n : ℕ) → parse_int (decimal n) ≡ plus n
unfolding decimal
parse_int-decimal n =
    parse_digits (digits_from (suc n) n) n (digits_from-IsDigits (suc n) n)
      (digits_value-digits_from (suc n) n (omega arith))

pub decimal-IsDigits : (n : ℕ) → IsDigits (decimal n)
unfolding decimal
decimal-IsDigits n = digits_from-IsDigits (suc n) n
