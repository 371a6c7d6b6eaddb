-- ===== src/Scroll/Loading.antt =====
-- Which pages are loaded by scrolling.
use mathlib.Core.List.{append-nil, append_assoc}
use cmoon.Base.{
  ℕ, zero, suc, ◌+◌, ◌≤◌, ◌≡◌, refl, ap, sym, ◌∙◌, Bool, true, false, not, List, [], ◌∷◌, ◌++◌,
  some, ◌==◌, ==_iff, subst, if◌then◌else◌, Bool-cases, inl, inr, arith,
}
use cmoon.Scroll.{
  Opts, Measures, Scroller, mnscrollpage, is_reached, is_at, stop, load, scrolled, run,
}

-- The `k` pages behind page `p`.
abbrev pub pages_behind : ℕ → ℕ → List ℕ
pages_behind p zero = []
pages_behind p (suc k) = suc p ∷ pages_behind (suc p) k

-- From `s` to `t` the callback was called with the pages behind that of `s`, in their order.
abbrev pub Loads : ℕ → Scroller → Scroller → Type 0
Loads k s t = (t.calls ≡ s.calls ++ pages_behind s.page k) × (t.page ≡ s.page + k)

rest-Loads : (s : Scroller) → Loads 0 s s
rest-Loads s = (sym (append-nil s.calls), omega arith)

load-Loads :
    (s t u : Scroller) (k : ℕ)
    → t.calls ≡ s.calls ++ suc s.page ∷ []
    → t.page ≡ suc s.page
    → Loads k t u
    → Loads (suc k) s u
load-Loads s t u k e g (h, i) = (
  h
      ∙ ap (λ c. c ++ pages_behind t.page k) e
      ∙ ap (λ p. (s.calls ++ suc s.page ∷ []) ++ pages_behind p k) g
      ∙ append_assoc s.calls (suc s.page ∷ []) (pages_behind (suc s.page) k),
  omega arith,
)

-- One element, with its handler or without.
abbrev pub one : Bool → ℕ → List ℕ → Scroller
one b p cs = record { page = p; bound = b ∷ []; calls = cs }

module _ (o : Opts) where
  unbound-run :
      (es : List (ℕ × Measures)) (p : ℕ) (cs : List ℕ) → run o es (one false p cs) ≡ one false p cs
  unfolding run scrolled
  unbound-run [] p cs = refl
  unbound-run ((zero, x) ∷ es) p cs = unbound-run es p cs
  unbound-run ((suc i, x) ∷ es) p cs = unbound-run es p cs

  stop-one :
      (p : ℕ) (cs : List ℕ) (b : Bool)
      → is_reached o.scpage p ≡ b
      → stop o 0 (one true p cs) ≡ one (not b) p cs
  stop-one p cs true e = rw e refl
  stop-one p cs false e = rw e refl

  load-one :
      (x : Measures) (p : ℕ) (cs : List ℕ) (b a : Bool)
      → is_at o.is_top x ≡ a
      → load o x (one b p cs) ≡ (if a then one b (suc p) (cs ++ suc p ∷ []) else one b p cs)
  load-one x p cs b true e = rw e refl
  load-one x p cs b false e = rw e refl

  module _ (n : ℕ) (limit : o.scpage ≡ some n) where
    -- From `s` to `t` at most the pages up to the one behind page `n` are loaded.
    abbrev LoadsUpTo : Scroller → Scroller → Type 0
    LoadsUpTo s t = (k : ℕ) × ((k + s.page ≤ suc n) × Loads k s t)

    loaded-LoadsUpTo :
        (b : Bool) (p : ℕ) (cs : List ℕ) (t : Scroller)
        → LoadsUpTo (one b (suc p) (cs ++ suc p ∷ [])) t
        → LoadsUpTo (one true p cs) t
    loaded-LoadsUpTo b p cs t (k, (h, l)) = (
      suc k,
      (omega arith, load-Loads (one true p cs) (one b (suc p) (cs ++ suc p ∷ [])) t k refl refl l),
    )

    stopped-LoadsUpTo :
        (es : List (ℕ × Measures)) (x : Measures) (p : ℕ) (cs : List ℕ)
        → p ≡ n
        → LoadsUpTo (one true p cs) (run o es (load o x (one false p cs)))
    stopped-LoadsUpTo es x p cs h = elim (Bool-cases (is_at o.is_top x)) [
      | inl a ↦
          subst (λ t. LoadsUpTo (one true p cs) t)
            (sym (
              ap (run o es) (load-one x p cs false true a)
              ∙ unbound-run es (suc p) (cs ++ suc p ∷ [])))
            (loaded-LoadsUpTo false p cs (one false (suc p) (cs ++ suc p ∷ []))
              (0, (omega arith, rest-Loads (one false (suc p) (cs ++ suc p ∷ [])))))
      | inr a ↦
          subst (λ t. LoadsUpTo (one true p cs) t)
            (sym (ap (run o es) (load-one x p cs false false a) ∙ unbound-run es p cs))
            (0, (omega arith, (sym (append-nil cs), omega arith)))
    ]

    run-LoadsUpTo :
        (es : List (ℕ × Measures)) (p : ℕ) (cs : List ℕ)
        → p ≤ n
        → LoadsUpTo (one true p cs) (run o es (one true p cs))
    unfolding run scrolled
    run-LoadsUpTo [] p cs h = (0, (omega arith, rest-Loads (one true p cs)))
    run-LoadsUpTo ((suc i, x) ∷ es) p cs h = run-LoadsUpTo es p cs h
    run-LoadsUpTo ((zero, x) ∷ es) p cs h = elim (Bool-cases (p == n)) [
      | inl e ↦
          subst (λ t. LoadsUpTo (one true p cs) (run o es (load o x t)))
            (sym (stop-one p cs true (ap (λ m. is_reached m p) limit ∙ e)))
            (stopped-LoadsUpTo es x p cs ((==_iff p n).0 e))
      | inr e ↦
          subst (λ t. LoadsUpTo (one true p cs) (run o es (load o x t)))
            (sym (stop-one p cs false (ap (λ m. is_reached m p) limit ∙ e)))
            (elim (Bool-cases (is_at o.is_top x)) [
              | inl a ↦
                  subst (λ t. LoadsUpTo (one true p cs) (run o es t))
                    (sym (load-one x p cs true true a))
                    (loaded-LoadsUpTo true p cs (run o es (one true (suc p) (cs ++ suc p ∷ [])))
                      (run-LoadsUpTo es (suc p) (cs ++ suc p ∷ []) (ground (arith, h, e))))
              | inr a ↦
                  subst (λ t. LoadsUpTo (one true p cs) (run o es t))
                    (sym (load-one x p cs true false a)) (run-LoadsUpTo es p cs h)
            ])
    ]

    -- With one element, and a first page that is not behind the last page `n` that is to be loaded:
    -- whatever is scrolled, the callback is called with the pages behind the first one, in their
    -- order and each once, up to the one behind page `n` at most.
    pub run-Loads :
        (es : List (ℕ × Measures))
        → o.ppage ≤ n
        → (k : ℕ) × ((k + o.ppage ≤ suc n)
            × Loads k (mnscrollpage o 1) (run o es (mnscrollpage o 1)))
    unfolding mnscrollpage
    run-Loads es h = run-LoadsUpTo es o.ppage [] h
