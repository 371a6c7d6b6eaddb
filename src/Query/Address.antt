-- ===== src/Query/Address.antt =====
-- Addresses that are made of names and values.
use cmoon.Base.{
  ◌≡◌, refl, Bool, true, false, not, ◌&&◌, List, [], ◌∷◌, ◌++◌, Option, none, some, ◌==◌,
  if◌then◌else◌, Text, arith,
}
use cmoon.Chat.Tags.{has}
use cmoon.Query.{is_word, lower, after_name, until_and, is_mark, plus_to_space}

-- A text without marks, and one without `=` as well.
abbrev pub is_unmarked : Text → Bool
is_unmarked [] = true
is_unmarked (c ∷ s) = not (is_mark c) && is_unmarked s

abbrev pub is_name : Text → Bool
is_name [] = true
is_name (c ∷ s) = (not (is_mark c) && not (c == b'=')) && is_name s

-- A value that is written as it is.
abbrev pub is_plain : Text → Bool
is_plain [] = true
is_plain (c ∷ s) = (not (is_mark c) && (not (c == b'%') && not (c == b'+'))) && is_plain s

abbrev pub same_name : Text → Text → Bool
same_name [] [] = true
same_name [] (d ∷ k) = false
same_name (c ∷ n) [] = false
same_name (c ∷ n) (d ∷ k) = (lower c == lower d) && same_name n k

-- `k=v`, `&k=v` for each of the others, and the address.
abbrev pub entry : Text × Text → Text → Text
entry (k, v) rest = k ++ b'=' ∷ (v ++ rest)

abbrev pub more : List (Text × Text) → Text
more [] = []
more (p ∷ ps) = b'&' ∷ entry p (more ps)

abbrev pub address : Text → Text × Text → List (Text × Text) → Text
address base p ps = base ++ b'?' ∷ entry p (more ps)

-- The value of the first of the names that is the same but for its case.
abbrev pub value_of : Text → List (Text × Text) → Option Text
value_of n [] = none
value_of n ((k, v) ∷ ps) = if same_name n k then some v else value_of n ps

abbrev pub value_or_nothing : Option Text → Text
value_or_nothing none = []
value_or_nothing (some v) = v

abbrev pub are_plain : List (Text × Text) → Bool
are_plain [] = true
are_plain ((k, v) ∷ ps) = (is_name k && is_plain v) && are_plain ps

pub after_name-same_name :
    (n k s : Text)
    → is_name n ≡ true
    → is_name k ≡ true
    → after_name (n ++ b'=' ∷ []) (k ++ b'=' ∷ s) ≡ (if same_name n k then some s else none)
after_name-same_name [] [] s h g = refl
after_name-same_name [] (d ∷ k) s h g = ground (arith, g)
after_name-same_name (c ∷ n) [] s h g = ground (arith, h)
after_name-same_name (c ∷ n) (d ∷ k) s h g = ground (arith, h, g, after_name-same_name n k s)

-- A name with its `=` does not stand in a text without them.
pub after_name-base :
    (n w s : Text)
    → is_name n ≡ true
    → is_name w ≡ true
    → after_name (n ++ b'=' ∷ []) (w ++ b'?' ∷ s) ≡ none
after_name-base [] [] s h g = refl
after_name-base [] (d ∷ w) s h g = ground (arith, g)
after_name-base (c ∷ n) [] s h g = ground (arith, h)
after_name-base (c ∷ n) (d ∷ w) s h g = ground (arith, h, g, after_name-base n w s)

pub until_and-more :
    (v : Text) (ps : List (Text × Text)) → is_plain v ≡ true → until_and (v ++ more ps) ≡ v
until_and-more [] [] h = refl
until_and-more [] (p ∷ ps) h = refl
until_and-more (c ∷ v) ps h = ground (arith, h, until_and-more v ps)

pub plain_unmarked : (v : Text) → is_plain v ≡ true → is_unmarked v ≡ true
plain_unmarked [] h = refl
plain_unmarked (c ∷ v) h = ground (arith, h, plain_unmarked v)

pub word_IsName : (n : Text) → is_word n ≡ true → is_name n ≡ true
word_IsName [] h = refl
word_IsName (c ∷ n) h = ground (arith, h, word_IsName n)

pub name_unmarked : (k : Text) → is_name k ≡ true → is_unmarked k ≡ true
name_unmarked [] h = refl
name_unmarked (c ∷ k) h = ground (arith, h, name_unmarked k)

pub plus_to_space-plain : (v : Text) → is_plain v ≡ true → plus_to_space v ≡ v
plus_to_space-plain [] h = refl
plus_to_space-plain (c ∷ v) h = ground (arith, h, plus_to_space-plain v)

pub plain_percent : (v : Text) → is_plain v ≡ true → has b'%' v ≡ false
plain_percent [] h = refl
plain_percent (c ∷ v) h = ground (arith, h, plain_percent v)
