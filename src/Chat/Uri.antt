-- ===== src/Chat/Uri.antt =====
-- `decodeURIComponent`, as ECMAScript defines it: `none` is the URIError that it throws.
pub mod Escapes
use cmoon.Base.{
  ℕ, zero, suc, ◌+◌, ◌-◌, ◌*◌, Bool, true, false, ◌&&◌, List, [], ◌∷◌, ◌++◌, Option, none, some,
  ltb, leb, ◌==◌, if◌then◌else◌, Text, utf16,
}

infixl 5 ◌>>=◌
abbrev pub ◌>>=◌ {ℓ κ} : {A : Type ℓ} {B : Type κ} → Option A → (A → Option B) → Option B
none >>= f = none
some a >>= f = f a

unfoldable pub hex_value : ℕ → Option ℕ
hex_value c =
    if leb b'0' c && leb c b'9'
    then some (c - b'0')
    else if leb b'a' c && leb c b'f'
    then some (c - b'a' + 10)
    else if leb b'A' c && leb c b'F'
    then some (c - b'A' + 10)
    else none

-- A unit that stands for itself, or the octet of a `%XX`.
pub data Token : Type 0 where
  plain octet : ℕ → Token

abbrev pub octet_then : ℕ → ℕ → Option (List Token) → Option (List Token)
octet_then a b rest = do h ← hex_value a; l ← hex_value b; ts ← rest; some (octet (h * 16 + l) ∷ ts)

abbrev pub plain_then : ℕ → Option (List Token) → Option (List Token)
plain_then c rest = do ts ← rest; some (plain c ∷ ts)

unfoldable pub tokens : Text → Option (List Token)
unfolding hex_value
tokens [] = some []
tokens (c ∷ []) = if c == b'%' then none else some (plain c ∷ [])
tokens (c ∷ a ∷ []) = if c == b'%' then none else plain_then c (tokens (a ∷ []))
tokens (c ∷ a ∷ b ∷ r) = elim (c == b'%') [
  | true ↦ octet_then a b (tokens r)
  | false ↦ plain_then c (tokens (a ∷ b ∷ r))
]

-- Between characters, or inside one: the octets that are still to come, the bits so far, and the
-- least code point that may be written at this length.
pub data Pending : Type 0 where
  ready : Pending
  inside : ℕ → ℕ → ℕ → Pending

is_scalar : ℕ → Bool
is_scalar v = leb v 0x10ffff && (if ltb v 0xd800 then true else ltb 0xdfff v)

start : ℕ → Option Pending
start b =
    if ltb b 0xc0
    then none
    else if ltb b 0xe0
    then some (inside 1 (b - 0xc0) 0x80)
    else if ltb b 0xf0
    then some (inside 2 (b - 0xe0) 0x800)
    else if ltb b 0xf8
    then some (inside 3 (b - 0xf0) 0x10000)
    else none

join : Pending → List Token → Option Text
unfolding is_scalar start
join ready [] = some []
join ready (plain c ∷ ts) = do s ← join ready ts; some (c ∷ s)
join ready (octet b ∷ ts) = elim (ltb b 0x80) [
  | true ↦ do s ← join ready ts; some (b ∷ s)
  | false ↦ elim (start b) [ none ↦ none | some p ↦ join p ts ]
]
join (inside left bits least) [] = none
join (inside left bits least) (plain c ∷ ts) = none
join (inside left bits least) (octet b ∷ ts) =
    let v : ℕ = bits * 64 + (b - 0x80) in
    elim (leb 0x80 b && ltb b 0xc0) [
      | false ↦ none
      | true ↦ elim (ltb left 2) [
        | false ↦ join (inside (left - 1) v least) ts
        | true ↦ elim (leb least v && is_scalar v) [
          | false ↦ none
          | true ↦ do s ← join ready ts; some (utf16 v ++ s)
        ]
      ]
    ]

unfoldable pub decode_uri : Text → Option Text
unfolding tokens join
decode_uri s = do ts ← tokens s; join ready ts
