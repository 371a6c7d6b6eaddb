-- ===== src/Util/Waiting.antt =====
-- Waiting for a condition ends.
use cmoon.Base.{
  subst, sym, ℕ, zero, suc, ◌-◌, ◌*◌, ◌/◌, ◌<◌, ◌≡◌, ◌≢◌, ◌↔◌, refl, Bool, true, false, ◌||◌, List,
  [], ◌∷◌, ltb, length, take, arith,
}
use cmoon.Util.{waits, ran, seconds, after, calls}

abbrev pub any : List Bool → Bool
any [] = false
any (b ∷ bs) = b || any bs

-- How many calls there are yet before one gives up.
abbrev pub calls_left : ℕ → ℕ → ℕ
calls_left sec exetime = 10 * suc (seconds sec) - exetime

call_over : (sec e : ℕ) → 0 ≡ calls_left sec e → ltb (seconds sec) (e / 10) ≡ true
call_over sec e h = ground (arith, h)

call_left : (sec e n : ℕ) → suc n ≡ calls_left sec e → ltb (seconds sec) (e / 10) ≡ false
call_left sec e n h = ground (arith, h)

calls_more :
    (sec : ℕ) (bs : List Bool) (e n : ℕ)
    → suc n ≡ calls_left sec e
    → (calls sec (false ∷ bs) e).0 ≡ (calls sec bs (suc e)).0
unfolding calls after
calls_more sec bs e n k = ground (arith, call_left sec e n k)

ran_iff :
    (sec : ℕ) (bs : List Bool) (n e : ℕ)
    → n ≡ calls_left sec e
    → (((calls sec bs e).0 ≡ ran) ↔ (any (take n bs) ≡ true))
unfolding calls after
ran_iff sec [] zero e k = (λ h. cc, λ h. cc)
ran_iff sec [] (suc n) e k = (λ h. cc, λ h. cc)
ran_iff sec (b ∷ bs) zero e k = rw (calls, call_over sec e k) (λ h. cc, λ h. cc)
ran_iff sec (true ∷ bs) (suc n) e k = rw (calls, call_left sec e n k) (λ h. refl, λ h. refl)
ran_iff sec (false ∷ bs) (suc n) e k =
    subst (λ o. (o ≡ ran) ↔ (any (take n bs) ≡ true)) (sym (calls_more sec bs e n k))
      (ran_iff sec bs n (suc e) (omega (arith, k)))

-- The function is run exactly if the condition holds at one of the calls that are left.
calls-ran_iff :
    (sec : ℕ) (bs : List Bool) (e : ℕ)
    → (((calls sec bs e).0 ≡ ran) ↔ (any (take (calls_left sec e) bs) ≡ true))
calls-ran_iff sec bs e = ran_iff sec bs (calls_left sec e) e refl

-- Whatever the condition is, the calls end: one more than are left are enough.
calls-end :
    (sec : ℕ) (bs : List Bool) (e : ℕ) → calls_left sec e < length bs → (calls sec bs e).0 ≢ waits
unfolding calls after
calls-end sec [] e h = absurd (omega (arith, h))
calls-end sec (b ∷ bs) e h = ground (arith, h, calls-end sec bs (suc e))
