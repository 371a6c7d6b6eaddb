-- ===== src/Roster/Changes.antt =====
-- The nodes of a name after `_nodeUser` and after a change of one node.
use cmoon.Base.{
  String, ◌≡◌, refl, true, List, [], ◌∷◌, ◌++◌, map, none, str_eq, if◌then◌else◌, eq_iff, ◌⊎◌,
  subst, Option-cases, Bool-cases, inl, inr, arith,
}
use mathlib.Core.List.{map-append, append-nil, append_assoc}
use cmoon.Roster.{
  UserNode, Tabs, named, find_in, find_place, update_in, update, append_node, node_user, new_node,
}
use cmoon.Roster.Nodes.{nodes_in, nodes, nodes_in-append}

module _ (n : String) (f : UserNode → UserNode)
    (keeps : (u : UserNode) → (f u).uname ≡ u.uname) where
  nodes_in-update :
      (m : String) (us : List UserNode)
      → nodes_in m (update_in n f us)
        ≡ (if str_eq m n then map f (nodes_in m us) else nodes_in m us)
  unfolding update_in
  nodes_in-update m [] = ground arith
  nodes_in-update m (u ∷ us) = ground (
    arith,
    eq_iff m n,
    eq_iff u.uname m,
    eq_iff u.uname n,
    eq_iff (f u).uname m,
    keeps u,
    nodes_in-update m us,
  )

  pub nodes-update :
      (m : String) (ts : Tabs)
      → nodes m (update n f ts) ≡ (if str_eq m n then map f (nodes m ts) else nodes m ts)
  unfolding update
  nodes-update m [] = ground arith
  nodes-update m (t ∷ ts) =
      ground
        (arith, nodes_in-update m t, nodes-update m ts, map-append f (nodes_in m t) (nodes m ts))

nodes-append_node :
    (m : String) (u : UserNode) (t : List UserNode) (ts : Tabs)
    → nodes m (append_node u (t ∷ ts))
      ≡ nodes m (t ∷ ts) ++ (if str_eq u.uname m then u ∷ [] else [])
unfolding append_node
nodes-append_node m u t [] = ground (
  arith,
  nodes_in-append m t (u ∷ []),
  append-nil (nodes_in m t),
  append-nil (nodes_in m t ++ nodes_in m (u ∷ [])),
)
nodes-append_node m u t (s ∷ ts) = simp (nodes-append_node m u s ts, append_assoc)

nodes_in_of_absent :
    (n : String) (us : List UserNode) → find_in (named n) us ≡ none → nodes_in n us ≡ []
unfolding find_in
nodes_in_of_absent n [] h = refl
nodes_in_of_absent n (u ∷ us) h = ground (arith, nodes_in_of_absent n us)

pub nodes_of_absent : (n : String) (ts : Tabs) → find_place (named n) ts ≡ none → nodes n ts ≡ []
unfolding find_place
nodes_of_absent n [] h = refl
nodes_of_absent n (t ∷ ts) h = ground (arith, nodes_in_of_absent n t, nodes_of_absent n ts)

length-nodes-append_node :
    (m : String) (u : UserNode) (ts : Tabs)
    → ((ts ≡ []) × (append_node u ts ≡ []))
      ⊎ (nodes m (append_node u ts) ≡ nodes m ts ++ (if str_eq u.uname m then u ∷ [] else []))
unfolding append_node
length-nodes-append_node m u [] = inl (refl, refl)
length-nodes-append_node m u (t ∷ ts) = inr (nodes-append_node m u t ts)

-- A node is added for a name that has none, and then it is new.
pub nodes-node_user :
    (m n : String) (ts : Tabs)
    → (nodes m (node_user n true ts) ≡ nodes m ts)
      ⊎ ((n ≡ m) × (nodes m ts ≡ []) × (nodes m (node_user n true ts) ≡ new_node n ∷ []))
unfolding node_user
nodes-node_user m n ts = elim (Option-cases (find_place (named n) ts)) [
  | inr (w, e) ↦ inl (rw (e, node_user) refl)
  | inl e ↦ elim (length-nodes-append_node m (new_node n) ts) [
    | inl (e', e'') ↦ inl (ground (arith, e, e', e''))
    | inr e' ↦ elim (Bool-cases (str_eq n m)) [
      | inl same ↦
          let eq : n ≡ m = (eq_iff n m).0 same in
          let gone : nodes m ts ≡ [] = subst (λ k. nodes k ts ≡ []) eq (nodes_of_absent n ts e) in
          inr (eq, gone, ground (arith, e, e', same, gone))
      | inr differ ↦ inl (ground (arith, e, e', differ, append-nil (nodes m ts)))
    ]
  ]
]
