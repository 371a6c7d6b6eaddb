-- ===== src/Paging/Marks.antt =====
-- The jump of the older navigation bar, lib/js/jquery.mnpagenav.js.
use cmoon.Base.{ℕ, ◌≡◌, refl, ◌≤◌, true, ◌||◌, [], ◌∷◌, ltb, ◌==◌, Text, decimal, ap, ◌∙◌, arith}
use cmoon.Fields.{is_digit}
use cmoon.Fields.Matching.{test, every, test-plus}
use cmoon.Paging.Numerals.{Parsed, parse_int, parse_int-decimal, IsDigits, decimal-IsDigits}
use cmoon.Paging.Jump.{
  Nav, jump, digits_pattern, is_outside, mark_invalid, mark_valid, visit_typed, current_page,
}

every-IsDigits : (s : Text) → IsDigits s → every is_digit s ≡ true
every-IsDigits [] h = refl
every-IsDigits (c ∷ s) (a, b, h) = ground (arith, a, b, every-IsDigits s h)

test-digits :
    (s : Text) (n : ℕ) → IsDigits s → parse_int s ≡ Parsed.plus n → test digits_pattern s ≡ true
unfolding digits_pattern parse_int
test-digits [] n h e = absurd (ground arith)
test-digits (c ∷ s) n h e = ground (arith, test-plus is_digit (c ∷ s), every-IsDigits (c ∷ s) h)

test-decimal : (n : ℕ) → test digits_pattern (decimal n) ≡ true
test-decimal n = test-digits (decimal n) n (decimal-IsDigits n) (parse_int-decimal n)

outside_decimal : (n t : ℕ) → is_outside (parse_int (decimal n)) t ≡ ((n == 0) || ltb t n)
unfolding is_outside
outside_decimal n t = rw (is_outside, parse_int-decimal n) refl

jump_in :
    (url : Text) (n t : ℕ) (v : Nav)
    → 1 ≤ n
    → n ≤ t
    → jump url t (decimal n) v ≡ visit_typed url (decimal n) (mark_valid v)
unfolding jump
jump_in url n t v h k = ground (arith, test-decimal n, outside_decimal n t)

jump_out :
    (url : Text) (n t : ℕ) (v : Nav)
    → ((n == 0) || ltb t n) ≡ true
    → jump url t (decimal n) v ≡ mark_invalid v
unfolding jump
jump_out url n t v h = ground (arith, test-decimal n, outside_decimal n t)

held_typed :
    (n pg : ℕ) (v : Nav) → current_page pg (visit_typed [] (decimal n) v).held ≡ Parsed.plus n
unfolding visit_typed current_page
held_typed n pg v = parse_int-decimal n

-- A number that is not a page of the bar and then one that is: the bar goes to the second, but the
-- field keeps the class of a wrong entry beside that of a right one.
marks_stay :
    (url : Text) (m n t : ℕ) (v : Nav)
    → ((m == 0) || ltb t m) ≡ true
    → 1 ≤ n
    → n ≤ t
    → let w = jump url t (decimal n) (jump url t (decimal m) v) in
      (w ≡ visit_typed url (decimal n) (mark_valid (mark_invalid v)))
      × (w.valid ≡ true)
      × (w.invalid ≡ true)
unfolding visit_typed mark_valid mark_invalid
marks_stay [] m n t v out h k =
    let e =
      ap (jump [] t (decimal n)) (jump_out [] m t v out) ∙ jump_in [] n t (mark_invalid v) h k in
    (e, ap (λ (w : Nav). w.valid) e, ap (λ (w : Nav). w.invalid) e)
marks_stay (u ∷ us) m n t v out h k =
    let e =
      ap (jump (u ∷ us) t (decimal n)) (jump_out (u ∷ us) m t v out)
      ∙ jump_in (u ∷ us) n t (mark_invalid v) h k in
    (e, ap (λ (w : Nav). w.valid) e, ap (λ (w : Nav). w.invalid) e)

-- Without a location, a page of the bar that is entered is the page that the next bar shows.
current_page-jump :
    (n t pg : ℕ) (v : Nav)
    → 1 ≤ n
    → n ≤ t
    → current_page pg (jump [] t (decimal n) v).held ≡ Parsed.plus n
current_page-jump n t pg v h k =
    ap (λ (w : Nav). current_page pg w.held) (jump_in [] n t v h k) ∙ held_typed n pg (mark_valid v)
