-- ===== src/Roster/Scan.antt =====
-- A walk over the list of visitors in document order, and what it meets after a move.
use cmoon.Base.{
  ℕ, zero, suc, ◌≤◌, ◌<◌, String, ◌≡◌, ◌≢◌, inl, inr, refl, List, [], ◌∷◌, ◌++◌, map, Option, none,
  some, subst, sym, take, if◌then◌else◌, eq_iff, arith, Option-cases, ap,
}
use cmoon.Roster.{
  UserNode, Tabs, Place, named, is_idle, find_in, find_place, remove, insert_before, append_at,
}

-- What a walk in document order meets first: the visitor, an idle node, or neither.
pub data Scan : Type 0 where
  found blocked passed : Scan

abbrev pub scan_in : String → List UserNode → Scan
scan_in n [] = passed
scan_in n (u ∷ us) = if named n u then found else if is_idle u then blocked else scan_in n us

abbrev pub scan : String → Tabs → Scan
scan n [] = passed
scan n (t ∷ ts) = elim (scan_in n t) [ found ↦ found | blocked ↦ blocked | passed ↦ scan n ts ]

-- The visitor has a node, and no idle node stands before it.
abbrev pub IsAhead : String → Tabs → Type 0
IsAhead n ts = scan n ts ≡ found

scan_in-append :
    (n : String) (t s : List UserNode) → scan_in n t ≡ found → scan_in n (t ++ s) ≡ found
scan_in-append n [] s h = cc
scan_in-append n (u ∷ us) s h = ground (arith, scan_in-append n us s)

pub scan-append_at :
    (n : String) (k j : ℕ) (f : UserNode) (ts : Tabs)
    → k ≤ j
    → scan n (take (suc k) ts) ≡ found
    → scan n (append_at j f ts) ≡ found
unfolding append_at
scan-append_at n k j f [] h e = cc
scan-append_at n zero zero f (t ∷ ts) h e = ground (arith, scan_in-append n t (f ∷ []))
scan-append_at n (suc k) zero f (t ∷ ts) h e = absurd (omega arith)
scan-append_at n zero (suc j) f (t ∷ ts) h e = ground arith
scan-append_at n (suc k) (suc j) f (t ∷ ts) h e =
    ground (arith, scan-append_at n k j f ts (omega arith))

scan_in-remove :
    (n m : String) (us : List UserNode)
    → n ≢ m
    → scan_in n us ≢ blocked
    → scan_in n (remove m us) ≡ scan_in n us
unfolding remove
scan_in-remove n m [] ne h = refl
scan_in-remove n m (u ∷ us) ne h =
    ground (arith, eq_iff u.uname n, eq_iff u.uname m, scan_in-remove n m us ne)

pub scan-remove :
    (n m : String) (k : ℕ) (ts : Tabs)
    → n ≢ m
    → scan n (take k ts) ≡ found
    → scan n (take k (map (remove m) ts)) ≡ found
scan-remove n m zero ts ne h = h
scan-remove n m (suc k) [] ne h = h
scan-remove n m (suc k) (t ∷ ts) ne h =
    ground (arith, scan_in-remove n m t ne, scan-remove n m k ts ne)

module _ (n : String) (u : UserNode) (same : u.uname ≡ n) where
  scan_in-moved :
      (us : List UserNode) (r : ℕ × UserNode)
      → n ≢ r.1.uname
      → find_in is_idle us ≡ some r
      → scan_in n (insert_before r.1.uname u (remove n us)) ≡ found
  unfolding find_in insert_before remove
  scan_in-moved [] r ne h = cc
  scan_in-moved (v ∷ vs) r ne h = elim (Option-cases (find_in is_idle vs)) [
    | inl e ↦ ground (arith, e, eq_iff u.uname n, eq_iff v.uname n, eq_iff v.uname r.1.uname)
    | inr (q, e) ↦
        ground (
          arith,
          e,
          eq_iff u.uname n,
          eq_iff v.uname n,
          eq_iff v.uname r.1.uname,
          scan_in-moved vs q,
        )
  ]

  scan_in-unblocked :
      (us : List UserNode) (m : String)
      → find_in is_idle us ≡ none
      → scan_in n (insert_before m u (remove n us)) ≢ blocked
  unfolding find_in insert_before remove
  scan_in-unblocked [] m h = ground arith
  scan_in-unblocked (v ∷ vs) m h =
      ground (arith, eq_iff u.uname n, eq_iff v.uname n, eq_iff v.uname m, scan_in-unblocked vs m)

  abbrev pub moved : Place → Tabs → Tabs
  moved w ts = map (insert_before w.node.uname u) (map (remove n) ts)

  pub scan-moved :
      (ts : Tabs) (w : Place)
      → n ≢ w.node.uname
      → find_place is_idle ts ≡ some w
      → scan n (take (suc w.tab) (moved w ts)) ≡ found
  unfolding find_place
  scan-moved [] w ne h = cc
  scan-moved (t ∷ ts) w ne h = elim (Option-cases (find_in is_idle t)) [
    | inl e ↦ elim (Option-cases (find_place is_idle ts)) [
      | inl e' ↦ ground (arith, e, e')
      | inr (q, e') ↦
          let shifted : w ≡ record q { tab = suc q.tab } = ground (arith, e, e') in
          subst (λ v. scan n (take (suc v.tab) (moved v (t ∷ ts))) ≡ found) (sym shifted)
            (ground
              (arith, scan_in-unblocked t q.node.uname e, scan-moved ts q (rw shifted at ne) e'))
    ]
    | inr (q, e) ↦
        let here : w ≡ record { tab = 0; index = q.0; node = q.1 } = ground (arith, e) in
        subst (λ v. scan n (take (suc v.tab) (moved v (t ∷ ts))) ≡ found) (sym here)
          (ground (arith, scan_in-moved t q (rw here at ne) e))
  ]

abbrev outcome : Option (ℕ × UserNode) → Scan
outcome none = passed
outcome (some r) = found

scan_in-clear :
    (n : String) (us : List UserNode)
    → find_in is_idle us ≡ none
    → scan_in n us ≡ outcome (find_in (named n) us)
unfolding find_in
scan_in-clear n [] h = refl
scan_in-clear n (u ∷ us) h = ground (arith, scan_in-clear n us)

abbrev at_head : ℕ × UserNode → Place
at_head r = record { tab = 0; index = r.0; node = r.1 }

abbrev deeper : Place → Place
deeper w = record w { tab = suc w.tab }

-- A visitor's node in an earlier tab than the first idle one is ahead of it.
pub scan-named :
    (n : String) (ts : Tabs) (u : Place)
    → find_place (named n) ts ≡ some u
    → ((f : Place) → find_place is_idle ts ≡ some f → u.tab < f.tab)
    → scan n ts ≡ found
unfolding find_place
scan-named n [] u hu hf = cc
scan-named n (t ∷ ts) u hu hf = elim (Option-cases (find_in is_idle t)) [
  | inr (r, e) ↦ absurd (omega (arith, hf (at_head r) (ground (arith, e))))
  | inl e ↦ elim (Option-cases (find_in (named n) t)) [
    | inr (r, e') ↦ ground (arith, e', scan_in-clear n t e)
    | inl e' ↦ elim (Option-cases (find_place (named n) ts)) [
      | inl e'' ↦ absurd (ground (arith, e', e''))
      | inr (q, e'') ↦
          let same : deeper q ≡ u = ground (arith, e', e'') in
          let later = scan-named n ts q e'' λ f h.
            omega (arith, ap (λ (w : Place). w.tab) same, hf (deeper f) (ground (arith, e, h))) in
          ground (arith, e', scan_in-clear n t e, later)
    ]
  ]
]
