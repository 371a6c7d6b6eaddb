-- ===== src/Roster/Order.antt =====
-- Where `postUserDirty` leaves a visitor who needs attention: ahead of the idle ones.
use cmoon.Base.{
  ℕ, zero, suc, ◌≤◌, ◌<◌, String, ◌≡◌, ◌≢◌, ◌⊎◌, inl, inr, refl, true, false, List, [], ◌∷◌, ◌++◌,
  map, some, subst, sym, take, eq_iff, arith, str_ne, Option-cases, Bool-cases, leb, false, true,
  length, length-append, ap, ◌∙◌,
}
use mathlib.Core.List.{append-nil}
use cmoon.Roster.Nodes.{append-nil_split, IsUnique, nodes, nodes_in}
use cmoon.Roster.Membership.{find_place-FoundAt, find_place-nodes}
use cmoon.Roster.{
  UserNode, Tabs, Place, named, is_idle, find_in, find_place, remove, insert_before, append_at,
  move_before, swap_places, must_swap, post_user_dirty,
}
use cmoon.Roster.Scan.{
  found, blocked, scan_in, scan, IsAhead, scan-append_at, scan-remove, moved, scan-moved,
  scan-named,
}

length-zero : (xs : List UserNode) → length xs ≡ 0 → xs ≡ []
length-zero [] h = refl
length-zero (x ∷ xs) h = absurd (omega arith)

first-empty :
    (k : ℕ) (ts : Tabs) (xs : List UserNode) (m : String)
    → xs ≡ []
    → ((j : ℕ) → k ≡ suc j → nodes m (take (suc j) ts) ≡ [])
    → xs ++ nodes m (take k ts) ≡ []
first-empty zero ts xs m e rest = rw e refl
first-empty (suc j) ts xs m e rest = rw e (rest j refl)

crowded :
    (xs ys zs as' : List UserNode) (v : UserNode)
    → ys ≡ as' ++ v ∷ zs
    → length (xs ++ ys) ≤ 1
    → (xs ≡ []) × (length ys ≤ 1)
crowded xs ys zs as' v e h =
    let whole = length-append xs ys in
    let part = length-append as' (v ∷ zs) in
    (length-zero xs (omega (arith, whole, part, ap length e)), omega (arith, whole))

-- The tabs before the first idle node's hold no node of its name.
nodes-before :
    (k : ℕ) (ts : Tabs) (f : Place)
    → find_place is_idle ts ≡ some f
    → length (nodes f.node.uname ts) ≤ 1
    → k < f.tab
    → nodes f.node.uname (take (suc k) ts) ≡ []
unfolding find_place
nodes-before k [] f hf h lt = cc
nodes-before k (t ∷ ts) f hf h lt = elim (Option-cases (find_in is_idle t)) [
  | inr (r, e) ↦ absurd (ground (arith, e))
  | inl e ↦ elim (Option-cases (find_place is_idle ts)) [
    | inl e' ↦ absurd (ground (arith, e, e'))
    | inr (q, e') ↦
        let same : q.node ≡ f.node = ground (arith, e, e') in
        let lower : f.tab ≡ suc q.tab = ground (arith, e, e') in
        let name : q.node.uname ≡ f.node.uname = ap (λ (v : UserNode). v.uname) same in
        let (ys, zs, held) = (find_place-FoundAt is_idle ts q e').2 in
        let bound : length (nodes q.node.uname (t ∷ ts)) ≤ 1 =
          subst (λ m. length (nodes m (t ∷ ts)) ≤ 1) (sym name) h in
        let (alone, few) = crowded (nodes_in q.node.uname t) _ zs ys q.node held bound in
        subst (λ m. nodes m (take (suc k) (t ∷ ts)) ≡ []) name
          (first-empty k ts _ q.node.uname alone
            λ j up. nodes-before j ts q e' few (omega (arith, up, lower)))
  ]
]

scan_in-removed :
    (f v : UserNode) (us : List UserNode)
    → nodes_in f.uname us ≡ []
    → scan_in v.uname (remove f.uname (insert_before f.uname v (remove v.uname us))) ≢ found
unfolding insert_before remove
scan_in-removed f v [] h = ground arith
scan_in-removed f v (u ∷ us) h =
    ground (arith, eq_iff u.uname f.uname, eq_iff u.uname v.uname, scan_in-removed f v us)

scan_in-blocked :
    (n : String) (f : UserNode) (us : List UserNode)
    → n ≢ f.uname
    → is_idle f ≡ true
    → scan_in n us ≢ found
    → scan_in n (us ++ f ∷ []) ≡ blocked
scan_in-blocked n f [] ne idle h = ground (arith, eq_iff f.uname n)
scan_in-blocked n f (u ∷ us) ne idle h = ground (arith, scan_in-blocked n f us ne idle)

scan-behind :
    (k : ℕ) (f v : UserNode) (ts : Tabs)
    → v.uname ≢ f.uname
    → is_idle f ≡ true
    → k < length ts
    → nodes f.uname (take (suc k) ts) ≡ []
    → scan v.uname (
        append_at k f
          (map (remove f.uname) (map (insert_before f.uname v) (map (remove v.uname) ts))))
      ≡ blocked
unfolding append_at
scan-behind k f v [] ne idle lt h = absurd (omega arith)
scan-behind zero f v (t ∷ ts) ne idle lt h =
    let alone : nodes_in f.uname t ≡ [] = sym (append-nil (nodes_in f.uname t)) ∙ h in
    let past = scan_in-removed f v t alone in
    ground (arith, scan_in-blocked v.uname f _ ne idle past)
scan-behind (suc k) f v (t ∷ ts) ne idle lt h =
    let (alone, rest) = append-nil_split (nodes_in f.uname t) _ h in
    let past = scan_in-removed f v t alone in
    ground (arith, past, scan-behind k f v ts ne idle (omega arith) rest)

scan-swap_places :
    (ts : Tabs) (u : UserNode) (f : Place) (up : ℕ)
    → find_place is_idle ts ≡ some f
    → u.uname ≢ f.node.uname
    → f.tab ≤ up
    → IsAhead u.uname (swap_places u f.node up ts)
unfolding swap_places move_before
scan-swap_places ts u f up hf ne h =
    let after : Tabs = moved u.uname u refl f ts in
    let place = scan-moved u.uname u refl ts f ne hf in
    let kept = scan-remove u.uname f.node.uname (suc f.tab) after ne place in
    rw (str_ne u.uname f.node.uname ne)
      (scan-append_at u.uname f.tab up f.node (map (remove f.node.uname) after) h kept)

module _ (n : String) (ts : Tabs) (unique : IsUnique ts) (u : Place)
    (hu : find_place (named n) ts ≡ some u) (busy : is_idle u.node ≡ false) where
  named_self : u.node.uname ≡ n
  named_self = (eq_iff u.node.uname n).0 (find_place-FoundAt (named n) ts u hu).0

  -- The first idle node is another one.
  pub idle-other : (f : Place) → find_place is_idle ts ≡ some f → u.node.uname ≢ f.node.uname
  idle-other f hf same = ground (
    arith,
    ap (λ m. nodes m ts) same,
    find_place-nodes (named n) ts u unique hu,
    find_place-nodes is_idle ts f unique hf,
    (find_place-FoundAt is_idle ts f hf).0,
  )

  -- If ids are unique, a visitor whose node is not idle is ahead of every idle node after
  -- `postUserDirty`, unless the first idle node is in a later tab and nearer to that tab's start
  -- than the visitor's node to the start of its own.
  pub post_user_dirty-IsAhead :
      ((f : Place) → find_place is_idle ts ≡ some f → (f.tab ≤ u.tab) ⊎ (u.index ≤ f.index))
      → IsAhead n (post_user_dirty n ts)
  unfolding post_user_dirty must_swap
  post_user_dirty-IsAhead near = elim (Option-cases (find_place is_idle ts)) [
    | inl e ↦ ground (arith, hu, e, scan-named n ts u hu (λ f h. absurd (ground (arith, e, h))))
    | inr (f, e) ↦ elim (Bool-cases (leb f.tab u.tab)) [
      | inl up ↦
          subst (λ m. IsAhead m (post_user_dirty n ts)) named_self
            (ground (arith, hu, e, up, scan-swap_places ts u.node f u.tab e (idle-other f e)))
      | inr down ↦
          let first = scan-named n ts u hu (λ g h. ground (arith, e, h, down)) in
          ground (arith, hu, e, near f e, first)
    ]
  ]

  behind :
      (f : Place)
      → find_place is_idle ts ≡ some f
      → u.tab < f.tab
      → scan u.node.uname (swap_places u.node f.node u.tab ts) ≡ blocked
  unfolding swap_places move_before
  behind f hf lower = rw (str_ne u.node.uname f.node.uname (idle-other f hf)) (
      scan-behind u.tab f.node u.node ts (idle-other f hf) (find_place-FoundAt is_idle ts f hf).0
        (find_place-FoundAt (named n) ts u hu).1
        (nodes-before u.tab ts f hf (unique f.node.uname) lower))

  -- If ids are unique and the first idle node is in a later tab and nearer to that tab's start than
  -- the visitor's node to the start of its own, then the visitor was ahead of every idle node, and
  -- `postUserDirty` puts it behind one.
  post_user_dirty_demotes :
      (f : Place)
      → find_place is_idle ts ≡ some f
      → u.tab < f.tab
      → f.index < u.index
      → IsAhead n ts × (¬ IsAhead n (post_user_dirty n ts))
  unfolding post_user_dirty must_swap
  post_user_dirty_demotes f hf lower nearer = (
    scan-named n ts u hu (λ g h. ground (arith, hf, h)),
    λ ahead. ground (
      arith,
      hu,
      hf,
      ahead,
      subst (λ m. scan m (swap_places u.node f.node u.tab ts) ≡ blocked) named_self
          (behind f hf lower),
    ),
  )
