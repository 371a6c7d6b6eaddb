-- ===== src/Fields/Dates.antt =====
-- The pattern of `vdate`, whose classes `[0,1,2]` and `[0,1]` hold the comma too.
use cmoon.Base.{◌≡◌, refl, true, [], ◌∷◌, ℕ}
use cmoon.Fields.Matching.{test, after}
use cmoon.Fields.{date_pattern, is_digit}

-- For every year of four digits, `1,/3,/` and the year is a date.
test-date_pattern_of_commas :
    (a b c d : ℕ)
    → is_digit a ≡ true
    → is_digit b ≡ true
    → is_digit c ≡ true
    → is_digit d ≡ true
    → test date_pattern (b'1' ∷ b',' ∷ b'/' ∷ b'3' ∷ b',' ∷ b'/' ∷ a ∷ b ∷ c ∷ d ∷ []) ≡ true
unfolding test after date_pattern
test-date_pattern_of_commas a b c d h i j k = rw (h, i, j, k) refl
