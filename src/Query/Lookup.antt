-- ===== src/Query/Lookup.antt =====
-- What is read of an address that is made of names and values.
use cmoon.Base.{
  ℕ, ◌≡◌, refl, ap, ◌∙◌, true, false, List, [], ◌∷◌, ◌++◌, Option, none, some, if◌then◌else◌, Text,
  Bool-cases, inl, inr, arith,
}
use cmoon.Chat.Uri.Escapes.{decode_uri_of_plain}
use cmoon.Query.{after_name, until_and, is_mark, find_value, decoded, get_query_string, Name}
use cmoon.Query.Address.{
  word_IsName, is_unmarked, is_name, is_plain, same_name, entry, more, address, value_of,
  value_or_nothing, are_plain, after_name-same_name, after_name-base, until_and-more,
  plain_unmarked, name_unmarked, plus_to_space-plain, plain_percent,
}

-- Without marks nothing is found.
find_value-unmarked :
    (n w s : Text) → is_unmarked w ≡ true → find_value n false (w ++ s) ≡ find_value n false s
unfolding find_value
find_value-unmarked n [] s h = refl
find_value-unmarked n (c ∷ w) s h =
    let one : is_mark c ≡ false = ground (arith, h) in
    let others : is_unmarked w ≡ true = ground (arith, h) in
    rw one (find_value-unmarked n w s others)

-- Past an entry.
find_value-entry :
    (n k v s : Text)
    → is_name k ≡ true
    → is_plain v ≡ true
    → find_value n false (k ++ b'=' ∷ (v ++ s)) ≡ find_value n false s
unfolding find_value
find_value-entry n k v s h g =
    find_value-unmarked n k (b'=' ∷ (v ++ s)) (name_unmarked k h)
    ∙ find_value-unmarked n v s (plain_unmarked v g)

find_value-none :
    (n s : Text) (d : ℕ)
    → after_name n (d ∷ s) ≡ none
    → find_value n true (d ∷ s) ≡ find_value n (is_mark d) s
unfolding find_value
find_value-none n s d e = rw (find_value, e) refl

find_value-some :
    (n s r : Text) (d : ℕ)
    → after_name n (d ∷ s) ≡ some r
    → find_value n true (d ∷ s) ≡ some (until_and r)
unfolding find_value
find_value-some n s r d e = rw (find_value, e) refl

-- At an entry whose name is another.
find_value-other :
    (n k v s : Text)
    → is_name k ≡ true
    → is_plain v ≡ true
    → after_name n (k ++ b'=' ∷ (v ++ s)) ≡ none
    → find_value n true (k ++ b'=' ∷ (v ++ s)) ≡ find_value n false s
find_value-other n [] v s h g e =
    find_value-none n (v ++ s) b'=' e ∙ find_value-unmarked n v s (plain_unmarked v g)
find_value-other n (c ∷ k) v s h g e =
    let one : is_mark c ≡ false = ground (arith, h) in
    let others : is_name k ≡ true = ground (arith, h) in
    find_value-none n (k ++ b'=' ∷ (v ++ s)) c e
    ∙ ap (λ b. find_value n b (k ++ b'=' ∷ (v ++ s))) one
    ∙ find_value-entry n k v s others g

find_value-same :
    (n k v : Text) (ps : List (Text × Text))
    → is_plain v ≡ true
    → after_name n (k ++ b'=' ∷ (v ++ more ps)) ≡ some (v ++ more ps)
    → find_value n true (k ++ b'=' ∷ (v ++ more ps)) ≡ some v
find_value-same n [] v ps g e =
    find_value-some n (v ++ more ps) (v ++ more ps) b'=' e ∙ ap some (until_and-more v ps g)
find_value-same n (c ∷ k) v ps g e =
    find_value-some n (k ++ b'=' ∷ (v ++ more ps)) (v ++ more ps) c e
    ∙ ap some (until_and-more v ps g)

find_value-at :
    (n k v : Text) (ps : List (Text × Text)) (r : Option Text)
    → is_name n ≡ true
    → is_name k ≡ true
    → is_plain v ≡ true
    → find_value (n ++ b'=' ∷ []) false (more ps) ≡ r
    → find_value (n ++ b'=' ∷ []) true (entry (k, v) (more ps))
      ≡ (if same_name n k then some v else r)
find_value-at n k v ps r f h g e = elim (Bool-cases (same_name n k)) [
  | inl t ↦ rw t (
      find_value-same (n ++ b'=' ∷ []) k v ps g
        (rw (after_name-same_name n k (v ++ more ps) f h, t) refl))
  | inr t ↦ rw t (
      find_value-other (n ++ b'=' ∷ []) k v (more ps) h g
        (rw (after_name-same_name n k (v ++ more ps) f h, t) refl)
      ∙ e)
]

find_value-more :
    (n : Text) (ps : List (Text × Text))
    → is_name n ≡ true
    → are_plain ps ≡ true
    → find_value (n ++ b'=' ∷ []) false (more ps) ≡ value_of n ps
unfolding find_value
find_value-more n [] f h = refl
find_value-more n ((k, v) ∷ ps) f h =
    let rest : are_plain ps ≡ true = ground (arith, h) in
    find_value-at n k v ps (value_of n ps) f (ground (arith, h)) (ground (arith, h))
      (find_value-more n ps f rest)

find_value-base :
    (n w s : Text)
    → is_name n ≡ true
    → is_name w ≡ true
    → find_value (n ++ b'=' ∷ []) true (w ++ b'?' ∷ s) ≡ find_value (n ++ b'=' ∷ []) true s
unfolding find_value
find_value-base n [] s f h = find_value-none (n ++ b'=' ∷ []) s b'?' (after_name-base n [] s f h)
find_value-base n (c ∷ w) s f h =
    let one : is_mark c ≡ false = ground (arith, h) in
    let others : is_name w ≡ true = ground (arith, h) in
    find_value-none (n ++ b'=' ∷ []) (w ++ b'?' ∷ s) c (after_name-base n (c ∷ w) s f h)
    ∙ ap (λ b. find_value (n ++ b'=' ∷ []) b (w ++ b'?' ∷ s)) one
    ∙ find_value-unmarked (n ++ b'=' ∷ []) w (b'?' ∷ s) (name_unmarked w others)

decoded-value_of :
    (n : Text) (ps : List (Text × Text))
    → are_plain ps ≡ true
    → decoded (value_of n ps) ≡ some (value_or_nothing (value_of n ps))
decoded-value_of n [] h = refl
decoded-value_of n ((k, v) ∷ ps) h = elim (Bool-cases (same_name n k)) [
  | inl t ↦
      let plain : is_plain v ≡ true = ground (arith, h) in
      rw (t, plus_to_space-plain v plain) (decode_uri_of_plain v (plain_percent v plain))
  | inr t ↦ rw t (decoded-value_of n ps (ground (arith, h)))
]

-- For an address that is made of a beginning without marks and `=`, of `?` and of names with values
-- that need no escapes, joined by `&`: what is read under a word is the value of the first of the
-- names that is the same but for the case of its letters, and the empty text where there is none.
pub get_query_string-address :
    (n : Name) (base : Text) (p : Text × Text) (ps : List (Text × Text))
    → is_name base ≡ true
    → are_plain (p ∷ ps) ≡ true
    → get_query_string n (address base p ps) ≡ some (value_or_nothing (value_of n.text (p ∷ ps)))
unfolding get_query_string
get_query_string-address n base (k, v) ps g h =
    let f : is_name n.text ≡ true = word_IsName n.text n.plain in
    let rest : are_plain ps ≡ true = ground (arith, h) in
    ap decoded (
      find_value-base n.text base (entry (k, v) (more ps)) f g
      ∙ find_value-at n.text k v ps (value_of n.text ps) f (ground (arith, h)) (ground (arith, h))
          (find_value-more n.text ps f rest))
    ∙ decoded-value_of n.text ((k, v) ∷ ps) h
