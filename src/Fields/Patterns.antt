-- ===== src/Fields/Patterns.antt =====
-- What the simple patterns of the fields accept.
use cmoon.Base.{◌≡◌, ◌&&◌, [], ◌∷◌, ltb, leb, length, Text, arith}
use cmoon.Fields.Matching.{
  set, upto, test, every, test-cat_set, test-cat_set_end, test-upto, test-star, test-plus,
}
use cmoon.Fields.{is_digit, is_phone_char, is_person_char, int_pattern, phone_pattern, name_pattern}

-- The pattern of `vint` accepts a text exactly when it has from 1 to 10 characters and all are
-- digits.
test-int_pattern :
    (s : Text) → test int_pattern s ≡ (ltb 0 (length s) && (leb (length s) 10 && every is_digit s))
unfolding int_pattern
test-int_pattern [] = test-cat_set_end is_digit (upto 9 (set is_digit))
test-int_pattern (c ∷ s) =
    ground (arith, test-cat_set is_digit (upto 9 (set is_digit)) c s, test-upto is_digit 9 s)

pub test-phone_pattern :
    (s : Text) → test phone_pattern s ≡ (ltb 0 (length s) && every is_phone_char s)
unfolding phone_pattern
test-phone_pattern [] = test-plus is_phone_char []
test-phone_pattern (c ∷ s) = ground (arith, test-plus is_phone_char (c ∷ s))

pub test-name_pattern : (s : Text) → test name_pattern s ≡ every is_person_char s
unfolding name_pattern
test-name_pattern s = test-star is_person_char s
