-- ===== src/Roster/Membership.antt =====
-- `postUserDirty` moves nodes; it makes none, loses none and changes none.
use cmoon.Base.{
  ℕ, suc, ◌≤◌, ◌<◌, String, ◌≡◌, refl, Bool, true, List, [], ◌∷◌, ◌++◌, map, some, length,
  length-append, length-map, Option-cases, Bool-cases, inl, inr, ap, subst, str_eq_self, eq_iff,
  arith,
}
use mathlib.Core.List.{append_assoc}
use cmoon.Roster.{
  UserNode, Tabs, Place, named, is_idle, find_in, find_place, remove, insert_before, move_before,
  swap_places, post_user_dirty,
}
use cmoon.Roster.Nodes.{
  nodes_in, nodes, IsUnique, nodes-remove, nodes-insert_other, nodes-insert_self,
  nodes-append_at_other, nodes-append_at_self,
}

single : (ys zs xs : List UserNode) (v : UserNode) → xs ≡ ys ++ v ∷ zs → length xs ≤ 1 → xs ≡ v ∷ []
single [] [] xs v e h = e
single [] (z ∷ zs) xs v e h = absurd (omega (arith, ap length e))
single (y ∷ ys) zs xs v e h = absurd (omega (arith, ap length e, length-append {0} ys (v ∷ zs)))

-- A node that a search finds is one of its name's.
module _ (p : UserNode → Bool) where
  abbrev Holds : List UserNode → UserNode → Type 0
  Holds xs v = (ys : List UserNode) × (zs : List UserNode) × (xs ≡ ys ++ v ∷ zs)

  Holds-append : (xs ys : List UserNode) (v : UserNode) → Holds xs v → Holds (xs ++ ys) v
  Holds-append xs ys v (as', bs, e) = (as', bs ++ ys, rw (e, append_assoc) refl)

  Holds-prepend : (xs ys : List UserNode) (v : UserNode) → Holds ys v → Holds (xs ++ ys) v
  Holds-prepend xs ys v (as', bs, e) = (xs ++ as', bs, rw (e, append_assoc) refl)

  Holds-cons :
      (m : String) (u v : UserNode) (us : List UserNode)
      → Holds (nodes_in m us) v
      → Holds (nodes_in m (u ∷ us)) v
  Holds-cons m u v us h = elim (Bool-cases (named m u)) [
    | inl e ↦ rw e (Holds-prepend (u ∷ []) (nodes_in m us) v h)
    | inr e ↦ rw e h
  ]

  abbrev Found : List UserNode → UserNode → Type 0
  Found us v = (p v ≡ true) × Holds (nodes_in v.uname us) v

  find_in-Found : (us : List UserNode) (r : ℕ × UserNode) → find_in p us ≡ some r → Found us r.1
  unfolding find_in
  find_in-Found [] r h = cc
  find_in-Found (u ∷ us) r h = elim (Bool-cases (p u)) [
    | inl e ↦
        let same : u ≡ r.1 = ground arith in
        subst (Found (u ∷ us)) same (e, ([], nodes_in u.uname us, rw (str_eq_self u.uname) refl))
    | inr e ↦ elim (Option-cases (find_in p us)) [
      | inl e' ↦ absurd (ground (arith, e, e'))
      | inr (q, e') ↦
          let same : q.1 ≡ r.1 = ground (arith, e, e') in
          let ih = find_in-Found us q e' in
          subst (Found (u ∷ us)) same (ih.0, Holds-cons q.1.uname u q.1 us ih.1)
    ]
  ]

  abbrev pub FoundAt : Tabs → Place → Type 0
  FoundAt ts w = (p w.node ≡ true) × (w.tab < length ts) × Holds (nodes w.node.uname ts) w.node

  pub find_place-FoundAt : (ts : Tabs) (w : Place) → find_place p ts ≡ some w → FoundAt ts w
  unfolding find_place
  find_place-FoundAt [] w h = cc
  find_place-FoundAt (t ∷ ts) w h = elim (Option-cases (find_in p t)) [
    | inl e ↦ elim (Option-cases (find_place p ts)) [
      | inl e' ↦ absurd (ground (arith, e, e'))
      | inr (q, e') ↦
          let same : record q { tab = suc q.tab } ≡ w = ground (arith, e, e') in
          let ih = find_place-FoundAt ts q e' in
          subst (FoundAt (t ∷ ts)) same
            (ih.0, omega (arith, ih.1), Holds-prepend (nodes_in q.node.uname t) _ q.node ih.2)
    ]
    | inr (r, e) ↦
        let same : record { tab = 0; index = r.0; node = r.1 } ≡ w = ground (arith, e) in
        let ih = find_in-Found t r e in
        subst (FoundAt (t ∷ ts)) same
          (ih.0, omega arith, Holds-append (nodes_in r.1.uname t) _ r.1 ih.1)
  ]

  -- Where names are unique, it is the only one.
  pub find_place-nodes :
      (ts : Tabs) (w : Place)
      → IsUnique ts
      → find_place p ts ≡ some w
      → nodes w.node.uname ts ≡ w.node ∷ []
  find_place-nodes ts w unique h =
      let (ys, zs, e) = (find_place-FoundAt ts w h).2 in
      single ys zs (nodes w.node.uname ts) w.node e (unique w.node.uname)

pub length-move_before : (u f : UserNode) (ts : Tabs) → length (move_before u f ts) ≡ length ts
unfolding move_before
length-move_before u f ts = ground (
  arith,
  length-map ts (remove u.uname),
  length-map (map (remove u.uname) ts) (insert_before f.uname u),
)

module _ (n : String) (ts : Tabs) (unique : IsUnique ts) where
  module _ (u f : Place) (hu : find_place (named n) ts ≡ some u)
      (hf : find_place is_idle ts ≡ some f) where
    move_before-nodes : (m : String) → nodes m (move_before u.node f.node ts) ≡ nodes m ts
    unfolding move_before
    move_before-nodes m = ground (
      arith,
      eq_iff u.node.uname f.node.uname,
      eq_iff u.node.uname m,
      eq_iff m u.node.uname,
      eq_iff f.node.uname u.node.uname,
      nodes-insert_self f.node.uname u.node (map (remove u.node.uname) ts),
      nodes-insert_other m f.node.uname u.node (map (remove u.node.uname) ts),
      nodes-remove m u.node.uname ts,
      nodes-remove f.node.uname u.node.uname ts,
      find_place-nodes (named n) ts u unique hu,
      find_place-nodes is_idle ts f unique hf,
    )

    swap_places-nodes : (m : String) → nodes m (swap_places u.node f.node u.tab ts) ≡ nodes m ts
    unfolding swap_places
    swap_places-nodes m =
        let shifted = move_before u.node f.node ts in
        let place = find_place-FoundAt (named n) ts u hu in
        ground (
          arith,
          eq_iff f.node.uname m,
          eq_iff m f.node.uname,
          nodes-append_at_self u.tab f.node (map (remove f.node.uname) shifted),
          nodes-append_at_other m u.tab f.node (map (remove f.node.uname) shifted),
          nodes-remove m f.node.uname shifted,
          nodes-remove f.node.uname f.node.uname shifted,
          eq_iff f.node.uname f.node.uname,
          move_before-nodes m,
          length-map shifted (remove f.node.uname),
          length-move_before u.node f.node ts,
          place.1,
          find_place-nodes is_idle ts f unique hf,
        )

  -- If ids are unique, then under every name the list holds the same nodes after `postUserDirty`
  -- as before.
  pub post_user_dirty-nodes : (m : String) → nodes m (post_user_dirty n ts) ≡ nodes m ts
  unfolding post_user_dirty
  post_user_dirty-nodes m = elim (Option-cases (find_place (named n) ts)) [
    | inl e ↦ rw (e, post_user_dirty) refl
    | inr (u, e) ↦ elim (Option-cases (find_place is_idle ts)) [
      | inl e' ↦ rw (e, e', post_user_dirty) refl
      | inr (f, e') ↦ ground (arith, e, e', swap_places-nodes u f e e' m)
    ]
  ]
