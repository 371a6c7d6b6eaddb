-- ===== src/Roster/Examples.antt =====
-- The theorems on the list of visitors at a page with two tabs.
use cmoon.Base.{◌≡◌, refl, inr, true, [], ◌∷◌, some, eq_iff, arith}
use cmoon.Roster.{UserNode, Tabs, new_node, named, is_idle, find_place, post_user_dirty}
use cmoon.Roster.Nodes.{nodes, IsUnique}
use cmoon.Roster.Membership.{post_user_dirty-nodes}
use cmoon.Roster.Scan.{IsAhead}
use cmoon.Roster.Order.{post_user_dirty-IsAhead}

abbrev ann : UserNode
ann = record (new_node "ann") { is_on = true }

abbrev bob : UserNode
bob = record (new_node "bob") { is_on = true; is_dirty = true }

abbrev cat : UserNode
cat = record (new_node "cat") { is_off = true }

-- Two visitors on line in the first tab, one who left in the second.
abbrev two_tabs : Tabs
two_tabs = (ann ∷ bob ∷ []) ∷ (cat ∷ []) ∷ []

two_tabs-IsUnique : IsUnique two_tabs
two_tabs-IsUnique m = ground (
  arith,
  eq_iff "ann" m,
  eq_iff "bob" m,
  eq_iff "cat" m,
  eq_iff "ann" "bob",
  eq_iff "ann" "cat",
  eq_iff "bob" "cat",
)

ann_found : find_place (named "ann") two_tabs ≡ some (record { tab = 0; index = 0; node = ann })
unfolding find_place
ann_found = refl

bob_found : find_place (named "bob") two_tabs ≡ some (record { tab = 0; index = 1; node = bob })
unfolding find_place
bob_found = refl

cat_found : find_place is_idle two_tabs ≡ some (record { tab = 1; index = 0; node = cat })
unfolding find_place
cat_found = refl

post_user_dirty-nodes_example : nodes "cat" (post_user_dirty "bob" two_tabs) ≡ nodes "cat" two_tabs
post_user_dirty-nodes_example = post_user_dirty-nodes "bob" two_tabs two_tabs-IsUnique "cat"

post_user_dirty-IsAhead_example : IsAhead "ann" (post_user_dirty "ann" two_tabs)
post_user_dirty-IsAhead_example =
    post_user_dirty-IsAhead "ann" two_tabs two_tabs-IsUnique
      (record { tab = 0; index = 0; node = ann }) ann_found refl (λ f h. inr (omega arith))
