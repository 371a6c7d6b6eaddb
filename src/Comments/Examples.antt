-- ===== src/Comments/Examples.antt =====
-- Three comments in two parts.
use cmoon.Base.{◌≡◌, refl, ℕ, false, [], ◌∷◌, map, none, ltb, length}
use cmoon.Comments.{Comment, Comments, get_comments, node_comment}
use cmoon.Comments.Fetching.{fetches, fetches-nodes}

abbrev says : ℕ → ℕ → Comment
says i p = record { id = i; pid = p; addr = []; author = []; intime = []; content = b'<' ∷ [] }

abbrev page : Comments
page = record {
  num = 0;
  got = 0;
  num_text = none;
  nodes = [];
  own = [];
  get_shown = false;
  author = [];
  field = [];
  at_add = record { loading = false; success = false; error = false; notes = [] };
  requests = [];
}

fetches-nodes_example :
    let d = fetches 4 ((says 5 0 ∷ says 6 5 ∷ []) ∷ (says 7 0 ∷ []) ∷ []) page in
    (d.nodes ≡ map node_comment (says 5 0 ∷ says 6 5 ∷ says 7 0 ∷ []))
    × (d.requests ≡ get_comments 0 ∷ get_comments 2 ∷ [])
    × (d.get_shown ≡ ltb (length d.nodes) 4)
unfolding node_comment
fetches-nodes_example =
    fetches-nodes 4 (says 5 0 ∷ says 6 5 ∷ []) ((says 7 0 ∷ []) ∷ []) page
      (refl, refl, (refl, refl, (refl, refl, tt))) refl
