-- ===== src/Member/Cities.antt =====
-- The components of a place that are left to be looked up, and the lookup.
use mathlib.Core.Path.{ap₂}
use mathlib.Core.List.{append-nil, append_assoc}
use cmoon.Base.{
  ℕ, zero, suc, ◌≡◌, ◌<◌, refl, sym, ap, ◌∙◌, Bool, true, false, List, [], ◌∷◌, ◌++◌, Option, none,
  some, length, get_elem?, length-append, if◌then◌else◌, Bool-cases, inl, inr, arith,
}
use cmoon.Member.{Component, is_other, splice_at, geo_loop}

-- Behind a component that goes (`true`) the next one stays, whatever it is.
abbrev pub walk : Bool → List Component → List Component
walk skipped [] = []
walk true (c ∷ cs) = c ∷ walk false cs
walk false (c ∷ cs) =
    let gone = walk true cs in let kept = walk false cs in if is_other c then gone else c ∷ kept

first_of : List Component → Option Component
first_of [] = none
first_of (c ∷ cs) = some c

get_elem?-append :
    (done rest : List Component) → get_elem? (done ++ rest) (length done) ≡ first_of rest
unfolding first_of
get_elem?-append [] [] = refl
get_elem?-append [] (c ∷ rest) = refl
get_elem?-append (d ∷ done) rest = get_elem?-append done rest

get_elem?-past : (done : List Component) → get_elem? done (suc (length done)) ≡ none
get_elem?-past [] = refl
get_elem?-past (d ∷ done) = get_elem?-past done

splice_at-append :
    (done : List Component) (c : Component) (rest : List Component)
    → splice_at (length done) (done ++ c ∷ rest) ≡ done ++ rest
unfolding splice_at
splice_at-append [] c rest = refl
splice_at-append (d ∷ done) c rest = ap (◌∷◌ d) (splice_at-append done c rest)

-- One round of the loop.
round_end :
    (f i : ℕ) (arrs : List Component)
    → get_elem? arrs i ≡ none
    → geo_loop (suc f) i arrs ≡ some arrs
unfolding geo_loop
round_end f i arrs e = rw (e, geo_loop) refl

round :
    (f i : ℕ) (arrs : List Component) (c : Component)
    → get_elem? arrs i ≡ some c
    → geo_loop (suc f) i arrs ≡ geo_loop f (suc i) (if is_other c then splice_at i arrs else arrs)
unfolding geo_loop
round f i arrs c e = rw (e, geo_loop) refl

-- The rounds for the components behind one that stays.
later :
    (f : ℕ) (done : List Component) (c : Component) (cs : List Component)
    → geo_loop f (length (done ++ c ∷ [])) ((done ++ c ∷ []) ++ cs)
      ≡ some ((done ++ c ∷ []) ++ walk false cs)
    → geo_loop f (suc (length done)) (done ++ c ∷ cs) ≡ some (done ++ c ∷ walk false cs)
later f done c cs ih =
    let count : suc (length done) ≡ length (done ++ c ∷ []) =
      omega (arith, length-append done (c ∷ [])) in
    ap₂ (λ i xs. geo_loop f i xs) count (sym (append_assoc done (c ∷ []) cs))
    ∙ (ih ∙ ap some (append_assoc done (c ∷ []) (walk false cs)))

round_political :
    (f : ℕ) (done : List Component) (c : Component) (cs : List Component)
    → is_other c ≡ false
    → geo_loop (suc f) (length done) (done ++ c ∷ cs)
      ≡ geo_loop f (suc (length done)) (done ++ c ∷ cs)
unfolding first_of
round_political f done c cs e =
    round f (length done) (done ++ c ∷ cs) c (get_elem?-append done (c ∷ cs)) ∙ rw e refl

round_other :
    (f : ℕ) (done : List Component) (c : Component) (cs : List Component)
    → is_other c ≡ true
    → geo_loop (suc f) (length done) (done ++ c ∷ cs) ≡ geo_loop f (suc (length done)) (done ++ cs)
unfolding first_of
round_other f done c cs e =
    round f (length done) (done ++ c ∷ cs) c (get_elem?-append done (c ∷ cs))
    ∙ rw e (ap (geo_loop f (suc (length done))) (splice_at-append done c cs))

loop_from :
    (f : ℕ) (done rest : List Component)
    → length rest < f
    → geo_loop f (length done) (done ++ rest) ≡ some (done ++ walk false rest)
unfolding first_of
loop_from zero done rest h = absurd (omega arith)
loop_from (suc f) done [] h = round_end f (length done) (done ++ []) (get_elem?-append done [])
loop_from (suc zero) done (c ∷ cs) h = absurd (omega arith)
loop_from (suc (suc f)) done (c ∷ []) h = elim (Bool-cases (is_other c)) [
  | inl e ↦
      rw (walk, e)
        (round_other (suc f) done c [] e
          ∙ round_end f (suc (length done)) (done ++ [])
              (ap (λ xs. get_elem? xs (suc (length done))) (append-nil done) ∙ get_elem?-past done))
  | inr e ↦
      rw (walk, e)
        (round_political (suc f) done c [] e
          ∙ later (suc f) done c [] (loop_from (suc f) (done ++ c ∷ []) [] (omega arith)))
]
loop_from (suc (suc f)) done (c ∷ d ∷ ds) h = elim (Bool-cases (is_other c)) [
  | inl e ↦
      rw (walk, e)
        (round_other (suc f) done c (d ∷ ds) e
          ∙ later (suc f) done d ds (loop_from (suc f) (done ++ d ∷ []) ds (omega arith)))
  | inr e ↦
      rw (walk, e)
        (round_political (suc f) done c (d ∷ ds) e
          ∙ later (suc f) done c (d ∷ ds)
              (loop_from (suc f) (done ++ c ∷ []) (d ∷ ds) (omega arith)))
]

-- The loop ends, in at most one round more than there are components, and leaves those that are
-- political and each one that stood behind one that went, whatever it is.
pub geo_loop_ends :
    (arrs : List Component) → geo_loop (suc (length arrs)) 0 arrs ≡ some (walk false arrs)
geo_loop_ends arrs = loop_from (suc (length arrs)) [] arrs (omega arith)
