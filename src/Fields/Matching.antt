-- ===== src/Fields/Matching.antt =====
-- `Regex.test` of the language, for patterns that are anchored at both ends.
use cmoon.Base.{
  ℕ, zero, suc, ◌≡◌, refl, Bool, true, false, ◌&&◌, ◌||◌, not, [], ◌∷◌, leb, length, if◌then◌else◌,
  Text, arith, Bool-cases, inl, inr, ◌∙◌,
}

-- `set` is a class of characters.
pub data Regex : Type 0 where
  empty eps : Regex
  set : (ℕ → Bool) → Regex
  cat alt : Regex → Regex → Regex
  star : Regex → Regex

abbrev pub nullable : Regex → Bool
nullable empty = false
nullable eps = true
nullable (set p) = false
nullable (cat a b) = nullable a && nullable b
nullable (alt a b) = nullable a || nullable b
nullable (star a) = true

-- What is left to match behind a character.
unfoldable pub after : ℕ → Regex → Regex
after c empty = empty
after c eps = empty
after c (set p) = if p c then eps else empty
after c (cat a b) =
    let rest = after c b in
    let first = cat (after c a) b in if nullable a then alt first rest else first
after c (alt a b) = alt (after c a) (after c b)
after c (star a) = cat (after c a) (star a)

unfoldable pub test : Regex → Text → Bool
unfolding after
test r [] = nullable r
test r (c ∷ s) = test (after c r) s

-- `a?`, `a+`, `a{0,n}` and `a{n}`
abbrev pub maybe : Regex → Regex
maybe a = alt eps a

abbrev pub plus : Regex → Regex
plus a = cat a (star a)

abbrev pub upto : ℕ → Regex → Regex
upto zero a = eps
upto (suc n) a = alt eps (cat a (upto n a))

abbrev pub times : ℕ → Regex → Regex
times zero a = eps
times (suc n) a = cat a (times n a)

abbrev pub every : (ℕ → Bool) → Text → Bool
every p [] = true
every p (c ∷ s) = p c && every p s

pub test-alt : (a b : Regex) (s : Text) → test (alt a b) s ≡ (test a s || test b s)
unfolding test after
test-alt a b [] = refl
test-alt a b (c ∷ s) = test-alt (after c a) (after c b) s

pub test-empty : (s : Text) → test empty s ≡ false
unfolding test after
test-empty [] = refl
test-empty (c ∷ s) = test-empty s

test-cat_empty : (b : Regex) (s : Text) → test (cat empty b) s ≡ false
unfolding test after
test-cat_empty b [] = refl
test-cat_empty b (c ∷ s) = test-cat_empty b s

abbrev pub is_end : Text → Bool
is_end [] = true
is_end (c ∷ s) = false

pub test-eps : (s : Text) → test eps s ≡ is_end s
unfolding test after
test-eps [] = refl
test-eps (c ∷ s) = test-empty s

pub test-cat_eps : (b : Regex) (s : Text) → test (cat eps b) s ≡ test b s
unfolding test after
test-cat_eps b [] = refl
test-cat_eps b (c ∷ s) = ground (arith, test-alt (cat empty b) (after c b) s, test-cat_empty b s)

-- A character, and the rest of the pattern.
pub test-cat_set :
    (p : ℕ → Bool) (b : Regex) (c : ℕ) (s : Text) → test (cat (set p) b) (c ∷ s) ≡ (p c && test b s)
unfolding test after
test-cat_set p b c s = elim (Bool-cases (p c)) [
  | inl e ↦ rw (e, after) (test-cat_eps b s)
  | inr e ↦ rw (e, after) (test-cat_empty b s)
]

pub test-cat_set_end : (p : ℕ → Bool) (b : Regex) → test (cat (set p) b) [] ≡ false
unfolding test
test-cat_set_end p b = refl

pub test-upto :
    (p : ℕ → Bool) (n : ℕ) (s : Text) → test (upto n (set p)) s ≡ (leb (length s) n && every p s)
test-upto p zero [] = test-eps []
test-upto p zero (c ∷ s) = ground (arith, test-eps (c ∷ s))
test-upto p (suc n) [] = ground (arith, test-alt eps (cat (set p) (upto n (set p))) [], test-eps [])
test-upto p (suc n) (c ∷ s) = ground (
  arith,
  test-alt eps (cat (set p) (upto n (set p))) (c ∷ s),
  test-eps (c ∷ s),
  test-cat_set p (upto n (set p)) c s,
  test-upto p n s,
)

pub test-star : (p : ℕ → Bool) (s : Text) → test (star (set p)) s ≡ every p s
unfolding test after
test-star p [] = refl
test-star p (c ∷ s) = elim (Bool-cases (p c)) [
  | inl e ↦ rw (e, after) (test-cat_eps (star (set p)) s ∙ test-star p s)
  | inr e ↦ rw (e, after) (test-cat_empty (star (set p)) s)
]

-- One or more characters of a class.
pub test-plus : (p : ℕ → Bool) (s : Text) → test (plus (set p)) s ≡ (not (is_end s) && every p s)
test-plus p [] = test-cat_set_end p (star (set p))
test-plus p (c ∷ s) = ground (arith, test-cat_set p (star (set p)) c s, test-star p s)
