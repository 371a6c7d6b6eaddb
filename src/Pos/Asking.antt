-- ===== src/Pos/Asking.antt =====
-- Which cities are asked for.
use mathlib.Core.List.{append-nil, append_assoc}
use cmoon.Base.{
  ℕ, zero, suc, ◌<◌, ◌≡◌, refl, ap, sym, ◌∙◌, Bool, true, false, List, [], ◌∷◌, ◌++◌, some,
  get_elem?, length, length-append, ◌==◌, ==_iff, arith,
}
use cmoon.Pos.{City, Pos, get_pos, ticks_from, ticks, ready}

get_elem?-append :
    {A : Type 0} (xs ys : List A) (y : A) → get_elem? (xs ++ y ∷ ys) (length xs) ≡ some y
get_elem?-append [] ys y = refl
get_elem?-append (x ∷ xs) ys y = get_elem?-append xs ys y

-- Behind the cities `done`, with those of `left` and one more to come.
abbrev pub at : List City → Bool → Pos
at done b = record { curr_city = length done; asked = done; posts = []; is_pending = b }

get_pos-last :
    (done : List City) (z : City) → get_pos (done ++ z ∷ []) (at done true) ≡ some (at done false)
unfolding get_pos
get_pos-last done z =
    let e : (suc (length done) == length (done ++ z ∷ [])) ≡ true =
      (==_iff (suc (length done)) (length (done ++ z ∷ []))).1
        (omega (arith, length-append done (z ∷ []))) in
    rw e refl

get_pos-next :
    (done more : List City) (c z : City)
    → get_pos (done ++ c ∷ (more ++ z ∷ [])) (at done true) ≡ some (at (done ++ c ∷ []) true)
unfolding get_pos
get_pos-next done more c z =
    let e : (suc (length done) == length (done ++ c ∷ (more ++ z ∷ []))) ≡ false =
      ground (arith, length-append done (c ∷ (more ++ z ∷ [])), length-append more (z ∷ [])) in
    let n : suc (length done) ≡ length (done ++ c ∷ []) =
      omega (arith, length-append done (c ∷ [])) in
    rw (e, get_elem?-append done (more ++ z ∷ []) c)
      (ap
        (λ m.
          some (record { curr_city = m; asked = done ++ c ∷ []; posts = []; is_pending = true }))
        n)

ticks_idle :
    (n : ℕ) (cities done : List City) → ticks n cities (at done false) ≡ some (at done false)
unfolding ticks
ticks_idle zero cities done = refl
ticks_idle (suc n) cities done = ticks_idle n cities done

ticks-at :
    (more : List City) (n : ℕ) (done : List City) (z : City)
    → length more < n
    → ticks n (done ++ (more ++ z ∷ [])) (at done true) ≡ some (at (done ++ more) false)
unfolding ticks
ticks-at more zero done z h = absurd (omega (arith, h))
ticks-at [] (suc n) done z h =
    ap (ticks_from (ticks n (done ++ z ∷ []))) (get_pos-last done z)
    ∙ ticks_idle n (done ++ z ∷ []) done
    ∙ ap (λ d. some (at d false)) (sym (append-nil done))
ticks-at (c ∷ more) (suc n) done z h =
    ap (ticks_from (ticks n (done ++ c ∷ (more ++ z ∷ [])))) (get_pos-next done more c z)
    ∙ ap (λ cs. ticks n cs (at (done ++ c ∷ []) true))
        (sym (append_assoc done (c ∷ []) (more ++ z ∷ [])))
    ∙ ticks-at more n (done ++ c ∷ []) z (omega arith)
    ∙ ap (λ d. some (at d false)) (append_assoc done (c ∷ []) more)

-- Where the cities end in `z`, after at least as many calls of `getPos` as there are cities: all
-- cities but `z` were asked for, each once and in their order, and no timer is left.
pub ticks-ready :
    (more : List City) (z : City) (n : ℕ)
    → length more < n
    → ticks n (more ++ z ∷ []) ready ≡ some (at more false)
ticks-ready more z n h = ticks-at more n [] z h
