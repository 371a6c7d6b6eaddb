-- ===== src/Chat/Uri/Escapes.antt =====
-- Which texts `decodeURIComponent` takes.
use cmoon.Base.{
  ℕ, ◌≡◌, refl, false, [], ◌∷◌, ◌++◌, map, Option, none, some, Bool-cases, inl, inr, Text, List,
  ◌==◌, if◌then◌else◌, arith,
}
use cmoon.Chat.Tags.{has}
use cmoon.Chat.Uri.{
  tokens, decode_uri, Token, plain, octet_then, plain_then, join, hex_value, ready,
}

tokens_plain : (s : Text) → has b'%' s ≡ false → tokens s ≡ some (map plain s)
unfolding tokens
tokens_plain [] h = refl
tokens_plain (c ∷ []) h = ground arith
tokens_plain (c ∷ a ∷ []) h = ground (arith, tokens_plain (a ∷ []))
tokens_plain (c ∷ a ∷ b ∷ r) h = ground (arith, tokens_plain (a ∷ b ∷ r))

join_plain : (s : Text) → join ready (map plain s) ≡ some s
unfolding join
join_plain [] = refl
join_plain (c ∷ s) = rw (join_plain s)

-- A text without `%` stands for itself.
pub decode_uri_of_plain : (s : Text) → has b'%' s ≡ false → decode_uri s ≡ some s
unfolding decode_uri
decode_uri_of_plain s h = rw (tokens_plain s h) (join_plain s)

tokens_step :
    (c a b : ℕ) (r : Text)
    → tokens (c ∷ a ∷ b ∷ r)
      ≡ (if c == b'%' then octet_then a b (tokens r) else plain_then c (tokens (a ∷ b ∷ r)))
unfolding tokens
tokens_step c a b r = elim (Bool-cases (c == b'%')) [
  | inl e ↦ rw (e, tokens) refl
  | inr e ↦ rw (e, tokens) refl
]

octet_then-none : (a b : ℕ) → octet_then a b none ≡ none
octet_then-none a b = ground arith

octet_then-percent : (a : ℕ) (rest : Option (List Token)) → octet_then a b'%' rest ≡ none
unfolding hex_value
octet_then-percent a rest = ground arith

one_percent : tokens (b'%' ∷ []) ≡ none
unfolding tokens
one_percent = refl

two_percent : (c : ℕ) → tokens (c ∷ b'%' ∷ []) ≡ none
unfolding tokens
two_percent c = ground arith

tokens_of_percent : (s : Text) → tokens (s ++ b'%' ∷ []) ≡ none
tokens_of_percent [] = one_percent
tokens_of_percent (c ∷ []) = two_percent c
tokens_of_percent (c ∷ a ∷ []) =
    ground (arith, tokens_step c a b'%' [], octet_then-percent a (tokens []), two_percent a)
tokens_of_percent (c ∷ a ∷ b ∷ r) = ground (
  arith,
  tokens_step c a b (r ++ b'%' ∷ []),
  octet_then-none a b,
  tokens_of_percent r,
  tokens_of_percent (a ∷ b ∷ r),
)

-- A text that ends in `%` is refused.
pub decode_uri_of_percent : (s : Text) → decode_uri (s ++ b'%' ∷ []) ≡ none
unfolding decode_uri
decode_uri_of_percent s = rw (tokens_of_percent s)
