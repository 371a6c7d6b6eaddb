-- ===== src/Query.antt =====
-- A value of the query in the address of a page, `getQueryString` of lib/js/bmoon.js. The name stands
-- in an expression as it is; it is taken to be a word of letters from A to Z, figures and `_`, as all
-- names are that the pages ask for.
pub mod Address
pub mod Lookup
mod Examples
use cmoon.Base.{
  ℕ, ◌+◌, ◌≡◌, Bool, true, false, not, ◌&&◌, ◌||◌, List, [], ◌∷◌, ◌++◌, Option, none, some, ◌==◌,
  leb, if◌then◌else◌, Text,
}
use cmoon.Chat.Uri.{decode_uri}

abbrev pub is_word_unit : ℕ → Bool
is_word_unit c =
    (leb b'0' c && leb c b'9')
    || ((leb b'A' c && leb c b'Z') || ((leb b'a' c && leb c b'z') || (c == b'_')))

abbrev pub is_word : Text → Bool
is_word [] = true
is_word (c ∷ s) = is_word_unit c && is_word s

-- A name, which stands for itself in an expression.
pub record Name : Type 0 where
  pub text : Text
  pub plain : is_word text ≡ true

-- The flag `i`: no unit beyond these letters is the same as one of a word but for its case.
abbrev pub lower : ℕ → ℕ
lower c = if leb b'A' c && leb c b'Z' then c + 32 else c

-- What follows a name at the beginning of a text.
abbrev pub after_name : Text → Text → Option Text
after_name [] s = some s
after_name (c ∷ n) [] = none
after_name (c ∷ n) (d ∷ s) = if lower c == lower d then after_name n s else none

-- `[^&]*`
abbrev pub until_and : Text → Text
until_and [] = []
until_and (c ∷ s) = let rest = until_and s in if c == b'&' then [] else c ∷ rest

-- `\?|&`
abbrev pub is_mark : ℕ → Bool
is_mark c = (c == b'?') || (c == b'&')

abbrev pub after_mark : Bool → Text → Text → Option Text
after_mark b n s = if b then after_name n s else none

-- The first place behind a mark, or at the beginning, where the name with its `=` stands.
unfoldable pub find_value : Text → Bool → Text → Option Text
find_value n b [] = none
find_value n b (c ∷ s) = elim (after_mark b n (c ∷ s)) [
  | some r ↦ some (until_and r)
  | none ↦ find_value n (is_mark c) s
]

-- `.replace(/\+/g, " ")`
abbrev pub plus_to_space : Text → Text
plus_to_space [] = []
plus_to_space (c ∷ s) = (if c == b'+' then b' ' else c) ∷ plus_to_space s

abbrev pub decoded : Option Text → Option Text
decoded none = some []
decoded (some v) = decode_uri (plus_to_space v)

-- `getQueryString`, with `none` for the exception of `decodeURIComponent`.
unfoldable pub get_query_string : Name → Text → Option Text
unfolding find_value
get_query_string name href = decoded (find_value (name.text ++ b'=' ∷ []) true href)
