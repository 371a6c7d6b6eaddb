-- ===== src/Member/Points/Reading.antt =====
-- The texts of points and boxes, as they are made for the fields of a plan, are read back.
use mathlib.Core.List.{append-nil}
use cmoon.Base.{
  ℕ, ◌≡◌, refl, ap, sym, ◌∙◌, Bool, true, false, List, [], ◌∷◌, ◌++◌, Option, some, ◌==◌,
  if◌then◌else◌, Text, arith,
}
use cmoon.Member.Points.{
  split_comma, pieces, is_figure, run_of, first_run, number_in, point_of, point_numbers, corners_of,
  corners, parsed_point, parsed_box, dbpoint2ll, dbbox2ll,
}

-- The text of a number: figures, and at least one.
abbrev pub Figures : Text → Type 0
Figures [] = Unit
Figures (c ∷ s) = (is_figure c ≡ true) × Figures s

abbrev pub IsNumber : Text → Type 0
IsNumber [] = ⊥
IsNumber (c ∷ s) = (is_figure c ≡ true) × Figures s

abbrev Stops : Text → Type 0
Stops [] = Unit
Stops (c ∷ s) = is_figure c ≡ false

-- What `sgeo` and `rect` of a plan are made of.
abbrev pub point_text : Text → Text → Text
point_text a b = b'(' ∷ (a ++ b',' ∷ (b ++ b')' ∷ []))

abbrev pub rect_text : Text → Text → Text → Text → Text
rect_text a b c d =
    b'(' ∷ b'(' ∷ (a ++ b',' ∷ (b ++ b')' ∷ b',' ∷ b'(' ∷ (c ++ b',' ∷ (d ++ b')' ∷ b')' ∷ []))))

comma_ne : (c : ℕ) → is_figure c ≡ true → (c == b',') ≡ false
comma_ne c h = ground (arith, h)

split-Figures : (a r : Text) → Figures a → split_comma (a ++ b',' ∷ r) ≡ (a, pieces r)
split-Figures [] r h = refl
split-Figures (c ∷ a) r (h, k) = rw (comma_ne c h, split-Figures a r k) refl

run-Figures : (a q : Text) → Figures a → Stops q → run_of (a ++ q) ≡ a
run-Figures [] [] h k = refl
run-Figures [] (c ∷ q) h k = rw k refl
run-Figures (c ∷ a) q (h, g) k = rw h (ap (λ s. c ∷ s) (run-Figures a q g k))

first_run-Figures : (a q : Text) → IsNumber a → Stops q → first_run (a ++ q) ≡ some a
unfolding first_run
first_run-Figures [] q h k = absurd h
first_run-Figures (c ∷ a) q (h, g) k = rw h (ap (λ s. some (c ∷ s)) (run-Figures a q g k))

first_run_all : (a : Text) → IsNumber a → first_run a ≡ some a
first_run_all a h = ap first_run (sym (append-nil a)) ∙ first_run-Figures a [] h tt

IsNumber-Figures : (a : Text) → IsNumber a → Figures a
IsNumber-Figures [] h = absurd h
IsNumber-Figures (c ∷ a) h = h

split_close :
    (b r : Text) → Figures b → split_comma (b ++ b')' ∷ b',' ∷ r) ≡ (b ++ b')' ∷ [], pieces r)
split_close [] r h = refl
split_close (c ∷ b) r (h, k) = rw (comma_ne c h, split_close b r k) refl

split_last :
    (b q : Text) → Figures b → split_comma q ≡ (q, []) → split_comma (b ++ q) ≡ (b ++ q, [])
split_last [] q h e = e
split_last (c ∷ b) q (h, g) e = rw (comma_ne c h, split_last b q g e) refl

pieces-point_text :
    (a b : Text)
    → Figures a
    → Figures b
    → pieces (point_text a b) ≡ (b'(' ∷ a) ∷ (b ++ b')' ∷ []) ∷ []
pieces-point_text a b h k =
    ap (λ (p : Text × List Text). (b'(' ∷ p.0) ∷ p.1) (split-Figures a (b ++ b')' ∷ []) h)
    ∙ ap (λ (p : Text × List Text). (b'(' ∷ a) ∷ p.0 ∷ p.1) (split_last b (b')' ∷ []) k refl)

point_numbers-point_text :
    (a b : Text) → IsNumber a → IsNumber b → point_numbers (point_text a b) ≡ some (some a, some b)
unfolding point_numbers number_in first_run
point_numbers-point_text a b h k =
    ap point_of (pieces-point_text a b (IsNumber-Figures a h) (IsNumber-Figures b k))
    ∙ ap (λ o. some (first_run a, o)) (first_run-Figures b (b')' ∷ []) k refl)
    ∙ ap (λ o. some (o, some b)) (first_run_all a h)

-- `dbpoint2ll` reads the text of a point, as it is made for `sgeo` and `egeo`, back to the numbers of
-- its two texts, where these are made of figures and dots.
pub dbpoint2ll-point_text :
    {Number : Type 0} (parse : Option Text → Number) (lt : Number → Number → Bool) (a b : Text)
    → IsNumber a
    → IsNumber b
    → dbpoint2ll parse lt (point_text a b) ≡ some (parse (some a), parse (some b))
unfolding dbpoint2ll
dbpoint2ll-point_text parse lt a b h k =
    ap (parsed_point parse lt) (point_numbers-point_text a b h k)

pieces-rect_text :
    (a b c d : Text)
    → Figures a
    → Figures b
    → Figures c
    → Figures d
    → pieces (rect_text a b c d)
      ≡ (b'(' ∷ b'(' ∷ a) ∷ (b ++ b')' ∷ []) ∷ (b'(' ∷ c) ∷ (d ++ b')' ∷ b')' ∷ []) ∷ []
pieces-rect_text a b c d h k l m =
    let s = d ++ b')' ∷ b')' ∷ [] in
    let r = b'(' ∷ (c ++ b',' ∷ s) in
    ap (λ (p : Text × List Text). (b'(' ∷ b'(' ∷ p.0) ∷ p.1)
      (split-Figures a (b ++ b')' ∷ b',' ∷ r) h)
    ∙ ap (λ (p : Text × List Text). (b'(' ∷ b'(' ∷ a) ∷ p.0 ∷ p.1) (split_close b r k)
    ∙ ap (λ (p : Text × List Text). (b'(' ∷ b'(' ∷ a) ∷ (b ++ b')' ∷ []) ∷ (b'(' ∷ p.0) ∷ p.1)
        (split-Figures c s l)
    ∙ ap (λ (p : Text × List Text). (b'(' ∷ b'(' ∷ a) ∷ (b ++ b')' ∷ []) ∷ (b'(' ∷ c) ∷ p.0 ∷ p.1)
        (split_last d (b')' ∷ b')' ∷ []) m refl)

corners-rect_text :
    (a b c d : Text)
    → IsNumber a
    → IsNumber b
    → IsNumber c
    → IsNumber d
    → corners (rect_text a b c d) ≡ some ((some a, some b), (some c, some d))
unfolding corners number_in first_run
corners-rect_text a b c d h k l m =
    ap corners_of (
      pieces-rect_text a b c d (IsNumber-Figures a h) (IsNumber-Figures b k) (IsNumber-Figures c l)
        (IsNumber-Figures d m))
    ∙ ap
        (λ o.
          some ((o, first_run (b ++ b')' ∷ [])), (first_run c, first_run (d ++ b')' ∷ b')' ∷ []))))
        (first_run_all a h)
    ∙ ap (λ o. some ((some a, o), (first_run c, first_run (d ++ b')' ∷ b')' ∷ []))))
        (first_run-Figures b (b')' ∷ []) k refl)
    ∙ ap (λ o. some ((some a, some b), (o, first_run (d ++ b')' ∷ b')' ∷ [])))) (first_run_all c l)
    ∙ ap (λ o. some ((some a, some b), (some c, o))) (first_run-Figures d (b')' ∷ b')' ∷ []) m refl)

-- `dbbox2ll` reads the text of a box, as it is made for `rect`, back to the numbers of its four texts,
-- where these are made of figures and dots, and puts the point of the lower latitude first.
pub dbbox2ll-rect_text :
    {Number : Type 0} (parse : Option Text → Number) (lt : Number → Number → Bool) (a b c d : Text)
    → IsNumber a
    → IsNumber b
    → IsNumber c
    → IsNumber d
    → dbbox2ll parse lt (rect_text a b c d)
      ≡ some (
          if lt (parse (some a)) (parse (some c))
          then ((parse (some a), parse (some b)), (parse (some c), parse (some d)))
          else ((parse (some c), parse (some d)), (parse (some a), parse (some b))))
unfolding dbbox2ll
dbbox2ll-rect_text parse lt a b c d h k l m =
    ap (parsed_box parse lt) (corners-rect_text a b c d h k l m)
