-- ===== src/Console/Focus.antt =====
-- One visitor at a time: which node is highlighted and which messages are shown.
use cmoon.Base.{
  String, ◌≡◌, ◌≢◌, refl, ◌∙◌, true, false, List, [], ◌∷◌, map, All, length-map, str_eq, eq_iff,
  Bool-cases, inl, inr, arith,
}
use cmoon.Roster.{UserNode, Tabs, update, node_user, post_user_dirty}
use cmoon.Roster.Nodes.{nodes, IsUnique}
use cmoon.Roster.Membership.{post_user_dirty-nodes}
use cmoon.Roster.Changes.{nodes-update, nodes-node_user}

abbrev pub IsPlain : UserNode → Type 0
IsPlain u = u.is_cur ≡ false

-- Ids are unique, and no node is highlighted but the current visitor's.
pub record InFocus (cur : String) (ts : Tabs) : Type 0 where
  pub unique : IsUnique ts
  pub others : (m : String) → m ≢ cur → All IsPlain (nodes m ts)

pub All-map :
    (f : UserNode → UserNode) (us : List UserNode)
    → ((u : UserNode) → IsPlain u → IsPlain (f u))
    → All IsPlain us
    → All IsPlain (map f us)
All-map f [] k h = tt
All-map f (u ∷ us) k h = (k u h.0, All-map f us k h.1)

module _ (cur n : String) (f : UserNode → UserNode)
    (keeps : (u : UserNode) → (f u).uname ≡ u.uname) where
  pub update-InFocus :
      (ts : Tabs)
      → (n ≢ cur → (u : UserNode) → IsPlain u → IsPlain (f u))
      → InFocus cur ts
      → InFocus cur (update n f ts)
  update-InFocus ts k v = record {
    unique =
        λ m. ground (arith, nodes-update n f keeps m ts, length-map (nodes m ts) f, v.unique m);
    others = λ m ne. elim (Bool-cases (str_eq m n)) [
      | inl same ↦
          let eq : m ≡ n = (eq_iff m n).0 same in
          rw (nodes-update n f keeps m ts, same)
            (All-map f (nodes m ts) (k λ e. ne (eq ∙ e)) (v.others m ne))
      | inr differ ↦ rw (nodes-update n f keeps m ts, differ) (v.others m ne)
    ];
  }

pub node_user-InFocus :
    (cur n : String) (ts : Tabs) → InFocus cur ts → InFocus cur (node_user n true ts)
node_user-InFocus cur n ts v = record {
  unique = λ m. elim (nodes-node_user m n ts) [
    | inl e ↦ rw e (v.unique m)
    | inr (_, _, e) ↦ rw e (omega arith)
  ];
  others = λ m ne. elim (nodes-node_user m n ts) [
    | inl e ↦ rw e (v.others m ne)
    | inr (_, _, e) ↦ rw e (refl, tt)
  ];
}

pub post_user_dirty-InFocus :
    (cur n : String) (ts : Tabs) → InFocus cur ts → InFocus cur (post_user_dirty n ts)
post_user_dirty-InFocus cur n ts v = record {
  unique = λ m. rw (post_user_dirty-nodes n ts v.unique m) (v.unique m);
  others = λ m ne. rw (post_user_dirty-nodes n ts v.unique m) (v.others m ne);
}
