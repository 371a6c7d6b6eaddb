-- ===== src/Roster/Nodes.antt =====
-- The nodes of one name, and what moving a node makes of them.
use cmoon.Base.{
  ℕ, zero, suc, ◌≤◌, ◌<◌, String, ◌≡◌, ◌≢◌, refl, sym, List, [], ◌∷◌, ◌++◌, map, length,
  if◌then◌else◌, str_eq, eq_iff, arith,
}
use mathlib.Core.List.{map-append, append-nil}
use cmoon.Roster.{UserNode, Tabs, named, remove, insert_before, append_at}

abbrev pub nodes_in : String → List UserNode → List UserNode
nodes_in m [] = []
nodes_in m (u ∷ us) = if named m u then u ∷ nodes_in m us else nodes_in m us

-- All the nodes of one name, in document order.
abbrev pub nodes : String → Tabs → List UserNode
nodes m [] = []
nodes m (t ∷ ts) = nodes_in m t ++ nodes m ts

-- No two elements have one id.
abbrev pub IsUnique : Tabs → Type 0
IsUnique ts = (m : String) → length (nodes m ts) ≤ 1

pub nodes_in-append :
    (m : String) (xs ys : List UserNode) → nodes_in m (xs ++ ys) ≡ nodes_in m xs ++ nodes_in m ys
nodes_in-append m [] ys = refl
nodes_in-append m (u ∷ us) ys = ground (arith, nodes_in-append m us ys)

nodes_in-remove :
    (m n : String) (us : List UserNode)
    → nodes_in m (remove n us) ≡ (if str_eq m n then [] else nodes_in m us)
unfolding remove
nodes_in-remove m n [] = ground arith
nodes_in-remove m n (u ∷ us) =
    ground (arith, eq_iff m n, eq_iff u.uname m, eq_iff u.uname n, nodes_in-remove m n us)

pub nodes-remove :
    (m n : String) (ts : Tabs)
    → nodes m (map (remove n) ts) ≡ (if str_eq m n then [] else nodes m ts)
nodes-remove m n [] = ground arith
nodes-remove m n (t ∷ ts) = ground (arith, nodes_in-remove m n t, nodes-remove m n ts)

nodes_in-insert_other :
    (m n : String) (v : UserNode) (us : List UserNode)
    → v.uname ≢ m
    → nodes_in m (insert_before n v us) ≡ nodes_in m us
unfolding insert_before
nodes_in-insert_other m n v [] h = refl
nodes_in-insert_other m n v (u ∷ us) h =
    ground (arith, eq_iff v.uname m, nodes_in-insert_other m n v us h)

pub nodes-insert_other :
    (m n : String) (v : UserNode) (ts : Tabs)
    → v.uname ≢ m
    → nodes m (map (insert_before n v) ts) ≡ nodes m ts
nodes-insert_other m n v [] h = refl
nodes-insert_other m n v (t ∷ ts) h =
    ground (arith, nodes_in-insert_other m n v t h, nodes-insert_other m n v ts h)

abbrev pub copies : UserNode → List UserNode → List UserNode
copies v = map (λ _. v)

nodes_in-insert_self :
    (n : String) (v : UserNode) (us : List UserNode)
    → v.uname ≢ n
    → nodes_in v.uname us ≡ []
    → nodes_in v.uname (insert_before n v us) ≡ copies v (nodes_in n us)
unfolding insert_before
nodes_in-insert_self n v [] h e = refl
nodes_in-insert_self n v (u ∷ us) h e = ground (
  arith,
  eq_iff v.uname n,
  eq_iff v.uname v.uname,
  eq_iff u.uname n,
  eq_iff u.uname v.uname,
  nodes_in-insert_self n v us h,
)

pub append-nil_split : (xs ys : List UserNode) → xs ++ ys ≡ [] → (xs ≡ []) × (ys ≡ [])
append-nil_split [] ys e = (refl, e)
append-nil_split (x ∷ xs) ys e = cc

pub nodes-insert_self :
    (n : String) (v : UserNode) (ts : Tabs)
    → v.uname ≢ n
    → nodes v.uname ts ≡ []
    → nodes v.uname (map (insert_before n v) ts) ≡ copies v (nodes n ts)
nodes-insert_self n v [] h e = refl
nodes-insert_self n v (t ∷ ts) h e =
    let (e₁, e₂) = append-nil_split (nodes_in v.uname t) (nodes v.uname ts) e in
    rw (nodes_in-insert_self n v t h e₁, nodes-insert_self n v ts h e₂)
      (sym (map-append (λ _. v) (nodes_in n t) (nodes n ts)))

pub nodes-append_at_other :
    (m : String) (k : ℕ) (v : UserNode) (ts : Tabs)
    → v.uname ≢ m
    → nodes m (append_at k v ts) ≡ nodes m ts
unfolding append_at
nodes-append_at_other m k v [] h = refl
nodes-append_at_other m zero v (t ∷ ts) h =
    ground (arith, nodes_in-append m t (v ∷ []), eq_iff v.uname m, append-nil (nodes_in m t))
nodes-append_at_other m (suc k) v (t ∷ ts) h = ground (arith, nodes-append_at_other m k v ts h)

pub nodes-append_at_self :
    (k : ℕ) (v : UserNode) (ts : Tabs)
    → k < length ts
    → nodes v.uname ts ≡ []
    → nodes v.uname (append_at k v ts) ≡ v ∷ []
unfolding append_at
nodes-append_at_self k v [] h e = absurd (omega arith)
nodes-append_at_self zero v (t ∷ ts) h e = ground (
  arith,
  append-nil_split (nodes_in v.uname t) (nodes v.uname ts) e,
  nodes_in-append v.uname t (v ∷ []),
  eq_iff v.uname v.uname,
)
nodes-append_at_self (suc k) v (t ∷ ts) h e = ground (
  arith,
  append-nil_split (nodes_in v.uname t) (nodes v.uname ts) e,
  nodes-append_at_self k v ts (omega arith),
)
