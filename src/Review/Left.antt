-- ===== src/Review/Left.antt =====
-- How many plans are left to review, and what one plan takes over from another.
use cmoon.Base.{
  ap, ◌∙◌, sym, ℕ, zero, suc, ◌≡◌, refl, inl, inr, ◌+◌, ◌-◌, true, false, List, [], ◌∷◌, ◌++◌,
  Option, none, some, length, length-append, if◌then◌else◌, arith, Bool-cases,
}
use cmoon.Review.{
  Review, Plan, Place, start, get, mod_plan, ℤ, pos, negsuc, pred_int, is_positive, is_set, measure,
  get_plan, on_plan, mark_draged, up_plan, save_plan, complete,
}
use cmoon.Review.Posts.{save_plan-requests}

-- Every round takes one from the number.
abbrev pub drop_int : ℕ → ℤ → ℤ
drop_int zero i = i
drop_int (suc n) i = drop_int n (pred_int i)

drop_negsuc : (n k d : ℕ) → n + k ≡ d → drop_int n (negsuc k) ≡ negsuc d
unfolding pred_int
drop_negsuc zero k d e = ap negsuc (omega (arith, e))
drop_negsuc (suc n) k d e = drop_negsuc n (suc k) d (omega (arith, e))

drop_over : (n m k : ℕ) → n ≡ suc (k + m) → drop_int n (pos m) ≡ negsuc k
unfolding pred_int
drop_over zero m k e = absurd (omega (arith, e))
drop_over (suc n) zero k e = drop_negsuc n 0 k (omega (arith, e))
drop_over (suc n) (suc m) k e = drop_over n m k (omega (arith, e))

positive_suc : (n : ℕ) (i : ℤ) → i ≡ pos (suc n) → is_positive i ≡ true
unfolding is_positive
positive_suc n i e = rw e (ground arith)

module _ {Point : Type 0} (earth_dis : Point → Point → ℕ) where
  -- The button is pressed so many times.
  unfoldable pub presses : ℕ → Review Point → Review Point
  presses zero r = r
  presses (suc n) r = presses n (get_plan earth_dis r)

  -- So many plans come.
  unfoldable pub plans_come : List (Plan Point) → Review Point → Review Point
  plans_come [] r = r
  plans_come (p ∷ ps) r = plans_come ps (on_plan earth_dis (some p) r)

  -- The button is pressed after the answer to the press before, and where a request is sent, a plan
  -- comes.
  unfoldable pub turn : Plan Point → Review Point → Review Point
  turn p r =
      if is_positive r.ntt
      then on_plan earth_dis (some p) (get_plan earth_dis r)
      else get_plan earth_dis r

  unfoldable pub turns : List (Plan Point) → Review Point → Review Point
  turns [] r = r
  turns (p ∷ ps) r = turns ps (turn p r)

  get_plan-ntt : (r : Review Point) → (get_plan earth_dis r).ntt ≡ r.ntt
  unfolding get_plan
  get_plan-ntt r = elim (Bool-cases (is_positive r.ntt)) [
    | inl e ↦ rw (get_plan, e) refl
    | inr e ↦ rw (get_plan, e) refl
  ]

  get_plan-requests :
      (r : Review Point)
      → is_positive r.ntt ≡ true
      → length (get_plan earth_dis r).requests ≡ suc (length r.requests)
  unfolding get_plan
  get_plan-requests r h =
      rw (get_plan, h) (length-append r.requests (get r.plan.id ∷ []) ∙ omega arith)

  presses-ntt : (n : ℕ) (r : Review Point) → (presses n r).ntt ≡ r.ntt
  unfolding presses
  presses-ntt zero r = refl
  presses-ntt (suc n) r = presses-ntt n (get_plan earth_dis r) ∙ get_plan-ntt r

  presses-requests :
      (n : ℕ) (r : Review Point)
      → is_positive r.ntt ≡ true
      → length (presses n r).requests ≡ n + length r.requests
  unfolding presses
  presses-requests zero r h = omega arith
  presses-requests (suc n) r h =
      presses-requests n (get_plan earth_dis r) (ap is_positive (get_plan-ntt r) ∙ h)
      ∙ omega (arith, get_plan-requests r h)

  plans_come-requests :
      (ps : List (Plan Point)) (r : Review Point) → (plans_come ps r).requests ≡ r.requests
  unfolding plans_come on_plan
  plans_come-requests [] r = refl
  plans_come-requests (p ∷ ps) r = plans_come-requests ps (on_plan earth_dis (some p) r)

  plans_come-ntt :
      (ps : List (Plan Point)) (r : Review Point)
      → (plans_come ps r).ntt ≡ drop_int (length ps) r.ntt
  unfolding plans_come on_plan
  plans_come-ntt [] r = refl
  plans_come-ntt (p ∷ ps) r = plans_come-ntt ps (on_plan earth_dis (some p) r)

  -- The button is pressed k + 1 times more than plans are left before the first answer, and plans come
  -- for all of them: every press sends a request, and the number that is left is then -(k + 1).
  plans_come-presses :
      (m k : ℕ) (ps : List (Plan Point)) (r : Review Point)
      → r.ntt ≡ pos (suc m)
      → length ps ≡ suc (k + suc m)
      → (let w = plans_come ps (presses (length ps) r) in
          (length w.requests ≡ length ps + length r.requests) × (w.ntt ≡ negsuc k))
  unfolding is_positive
  plans_come-presses m k ps r e f =
      let v = presses (length ps) r in
      (
        ap length (plans_come-requests ps v)
            ∙ presses-requests (length ps) r (positive_suc m r.ntt e),
        plans_come-ntt ps v
            ∙ ap (drop_int (length ps)) (presses-ntt (length ps) r ∙ e)
            ∙ drop_over (length ps) (suc m) k f,
      )

  turn-ntt :
      (n : ℕ) (p : Plan Point) (r : Review Point) → r.ntt ≡ pos n → (turn p r).ntt ≡ pos (n - 1)
  unfolding turn on_plan is_positive pred_int
  turn-ntt zero p r e =
      let none_left : is_positive r.ntt ≡ false = ap is_positive e in
      rw (turn, none_left) (get_plan-ntt r ∙ e ∙ ap pos (omega arith))
  turn-ntt (suc n) p r e =
      rw (turn, positive_suc n r.ntt e)
        (ap pred_int (get_plan-ntt r ∙ e) ∙ ap pos {x = n} {y = suc n - 1} (omega arith))

  -- Where every press waits for the answer to the one before, the number that is left goes down by
  -- one with each and stops at 0.
  turns-ntt :
      (n : ℕ) (ps : List (Plan Point)) (r : Review Point)
      → r.ntt ≡ pos n
      → (turns ps r).ntt ≡ pos (n - length ps)
  unfolding turns
  turns-ntt n [] r e = e ∙ ap pos {x = n} {y = n - 0} (omega arith)
  turns-ntt n (p ∷ ps) r e =
      turns-ntt (n - 1) ps (turn p r) (turn-ntt n p r e)
      ∙ ap pos {x = n - 1 - length ps} {y = n - suc (length ps)} (omega arith)

  measure_keeps :
      (o p : Option Point) (q : Plan Point)
      → (let w = measure earth_dis o p q in (w.id ≡ q.id) × (w.sll ≡ q.sll) × (w.ell ≡ q.ell))
  measure_keeps none p q = (refl, refl, refl)
  measure_keeps (some a) none q = (refl, refl, refl)
  measure_keeps (some a) (some b) q = (refl, refl, refl)

  saved :
      (r : Review Point) (a b : Point)
      → r.plan.sll ≡ some a
      → r.plan.ell ≡ some b
      → (let w = save_plan earth_dis r in
          (w.plan ≡ complete earth_dis a b r)
          × (w.phone ≡ r.phone)
          × (w.requests ≡ r.requests ++ mod_plan w.plan ∷ []))
  saved r a b e f =
      let k = save_plan-requests earth_dis r a b e f in
      let p = ap (λ (w : Review Point). w.plan) k in
      (
        p,
        ap (λ (w : Review Point). w.phone) k,
        ap (λ (w : Review Point). w.requests) k ∙ ap (λ p. r.requests ++ mod_plan p ∷ []) (sym p),
      )

  complete-phone :
      (a b : Point) (r : Review Point)
      → is_set r.phone ≡ true
      → (complete earth_dis a b r).phone ≡ r.phone
  unfolding complete
  complete-phone a b r h = rw h refl

  -- A telephone number that is typed for one plan and saved with it is saved with the next plan too.
  save_plan-phone :
      (r : Review Point) (q : Plan Point) (a b c d : Point)
      → r.plan.sll ≡ some a
      → r.plan.ell ≡ some b
      → q.sll ≡ some c
      → q.ell ≡ some d
      → is_set r.phone ≡ true
      → (let w = save_plan earth_dis (on_plan earth_dis (some q) (save_plan earth_dis r)) in
          (w.plan.id ≡ q.id)
          × (w.plan.phone ≡ r.phone)
          × (w.requests ≡ (save_plan earth_dis r).requests ++ mod_plan w.plan ∷ []))
  unfolding on_plan complete
  save_plan-phone r q a b c d e f g h k =
      let v = on_plan earth_dis (some q) (save_plan earth_dis r) in
      let (m, same, u) = saved r a b e f in
      let (p, n, l) = saved v c d g h in
      (
        ap (λ (w : Plan Point). w.id) p,
        ap (λ (w : Plan Point). w.phone) p ∙ complete-phone c d v (ap is_set same ∙ k) ∙ same,
        l,
      )

  -- A marker of one plan is dragged and the next plan comes before the answer of the map service: the
  -- place is saved with the next plan.
  save_plan-mark_draged :
      (r : Review Point) (q : Plan Point) (x : Place Point) (b : Point)
      → q.ell ≡ some b
      → (let w =
            save_plan earth_dis (mark_draged earth_dis start x (on_plan earth_dis (some q) r)) in
          (w.plan.id ≡ q.id)
          × (w.plan.sll ≡ some x.location)
          × (w.requests ≡ r.requests ++ mod_plan w.plan ∷ []))
  unfolding on_plan mark_draged up_plan complete
  save_plan-mark_draged r q x b e =
      let v = mark_draged earth_dis start x (on_plan earth_dis (some q) r) in
      let u : Plan Point = record q { sll = some x.location; saddr = x.formatted_address } in
      let (k, ka, kb) = measure_keeps (some x.location) q.ell u in
      let (p, n, l) = saved v x.location b ka (kb ∙ e) in
      (ap (λ (w : Plan Point). w.id) p ∙ k, ap (λ (w : Plan Point). w.sll) p ∙ ka, l)
