-- ===== src/Roster.antt =====
-- The list of visitors beside the console of pop/fly/js/ape/app/bmoon.chatb.js: the `<ul>` elements
-- below `#im-users`, each a tab of `<li>` nodes. An element's id holds the visitor's name, and ids
-- are unique, so that a node is addressed by its name; names hold no character that a selector
-- treats specially.
pub mod Nodes
pub mod Membership
pub mod Scan
pub mod Order
pub mod Changes
mod Examples
use cmoon.Base.{
  ℕ, zero, suc, ◌+◌, String, Bool, true, false, not, ◌&&◌, ◌||◌, List, [], ◌∷◌, ◌++◌, map, Option,
  none, some, length, leb, ltb, str_eq, if◌then◌else◌,
}

-- An `<li>`: its name, its `pubid` attribute ("" where it is not set), the text of its `.place`,
-- the four classes that the code tests or sets, and how many click handlers are bound to it.
pub record UserNode : Type 0 where
  pub uname : String
  pub pubid : String
  pub place : String
  pub is_on : Bool
  pub is_off : Bool
  pub is_dirty : Bool
  pub is_cur : Bool
  pub clicks : ℕ

abbrev pub Tabs : Type 0
Tabs = List (List UserNode)

-- `usersPerTab`
abbrev pub users_per_tab : ℕ
users_per_tab = 15

-- The markup of a new node, with its click handler bound.
abbrev pub new_node : String → UserNode
new_node n = record {
  uname = n;
  pubid = "";
  place = "";
  is_on = false;
  is_off = false;
  is_dirty = false;
  is_cur = false;
  clicks = 1;
}

abbrev pub named : String → UserNode → Bool
named n u = str_eq u.uname n

-- `li.off:not(.dirty)`
abbrev pub is_idle : UserNode → Bool
is_idle u = u.is_off && not u.is_dirty

-- A node where it stands: the index of its tab, its index in the tab, and itself.
pub record Place : Type 0 where
  pub tab : ℕ
  pub index : ℕ
  pub node : UserNode

unfoldable pub find_in : (UserNode → Bool) → List UserNode → Option (ℕ × UserNode)
find_in p [] = none
find_in p (u ∷ us) =
    if p u then some (0, u) else elim (find_in p us) [ none ↦ none | some (i, v) ↦ some (suc i, v) ]

-- The first node in document order that passes a test.
unfoldable pub find_place : (UserNode → Bool) → Tabs → Option Place
unfolding find_in
find_place p [] = none
find_place p (t ∷ ts) = elim (find_in p t) [
  | some (i, u) ↦ some (record { tab = 0; index = i; node = u })
  | none ↦ elim (find_place p ts) [ none ↦ none | some w ↦ some (record w { tab = suc w.tab }) ]
]

unfoldable pub update_in : String → (UserNode → UserNode) → List UserNode → List UserNode
update_in n f [] = []
update_in n f (u ∷ us) = (if named n u then f u else u) ∷ update_in n f us

-- A change of one node's classes, attributes or handlers.
unfoldable pub update : String → (UserNode → UserNode) → Tabs → Tabs
unfolding update_in
update n f ts = map (update_in n f) ts

-- `$(html).appendTo(o.userlist)`: the last tab, or a new one where it is full.
unfoldable pub append_node : UserNode → Tabs → Tabs
append_node u [] = []
append_node u (t ∷ []) =
    if leb users_per_tab (length t) then t ∷ (u ∷ []) ∷ [] else (t ++ u ∷ []) ∷ []
append_node u (t ∷ s ∷ ts) = t ∷ append_node u (s ∷ ts)

-- `_nodeUser(uname, create)`: the tabs after it; the node that it returns is `find_place`'s.
unfoldable pub node_user : String → Bool → Tabs → Tabs
unfolding append_node find_place
node_user n create ts = elim (find_place (named n) ts) [
  | some w ↦ ts
  | none ↦ if create then append_node (new_node n) ts else ts
]

unfoldable pub remove : String → List UserNode → List UserNode
remove n [] = []
remove n (u ∷ us) = if named n u then remove n us else u ∷ remove n us

unfoldable pub insert_before : String → UserNode → List UserNode → List UserNode
insert_before n v [] = []
insert_before n v (u ∷ us) =
    if named n u then v ∷ u ∷ insert_before n v us else u ∷ insert_before n v us

unfoldable pub append_at : ℕ → UserNode → Tabs → Tabs
append_at k u [] = []
append_at zero u (t ∷ ts) = (t ++ u ∷ []) ∷ ts
append_at (suc k) u (t ∷ ts) = t ∷ append_at k u ts

-- `userbox.insertBefore(userboxoff)`, which is nothing where the two are one node.
unfoldable pub move_before : UserNode → UserNode → Tabs → Tabs
unfolding remove insert_before
move_before u f ts =
    if str_eq u.uname f.uname then ts else map (insert_before f.uname u) (map (remove u.uname) ts)

-- That, and then `userboxoff.appendTo(up)`.
unfoldable pub swap_places : UserNode → UserNode → ℕ → Tabs → Tabs
swap_places u f up ts = append_at up f (map (remove f.uname) (move_before u f ts))

-- The places of the visitor's node and of the first idle one: is the node to be moved?
unfoldable pub must_swap : Place → Place → Bool
must_swap u f = leb f.tab u.tab || ltb f.index u.index

unfoldable pub post_user_dirty : String → Tabs → Tabs
post_user_dirty n ts = elim (find_place (named n) ts) [
  | none ↦ ts
  | some u ↦ elim (find_place is_idle ts) [
    | none ↦ ts
    | some f ↦ if must_swap u f then swap_places u.node f.node u.tab ts else ts
  ]
]
