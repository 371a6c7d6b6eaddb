-- ===== src/Comments.antt =====
-- The comments of an article, dida/fly/js/bore/bore.js: they are fetched in parts, and own ones are
-- added. Ids are not 0, and fading is left out.
pub mod Fetching
mod Examples
use cmoon.Base.{
  ℕ, zero, suc, ◌+◌, String, Bool, true, false, not, ◌&&◌, ◌||◌, List, [], ◌∷◌, ◌++◌, Option, none,
  some, ltb, ◌==◌, if◌then◌else◌, Text,
}
use cmoon.Util.{strip_html}
use cmoon.Forms.{Marks, load, settle}

-- What the server tells of a comment; `pid` is the comment that it answers, or 0.
pub record Comment : Type 0 where
  pub id : ℕ
  pub pid : ℕ
  pub addr : Text
  pub author : Text
  pub intime : Text
  pub content : Text

-- `_nodeComment` where there is no node yet: the content is escaped.
unfoldable pub node_comment : Comment → Comment
unfolding strip_html
node_comment c = record c { content = strip_html c.content }

pub data Request : Type 0 where
  get_comments : ℕ → Request
  add_comment_request : Text → Text → Request

-- `nodes` are the nodes of the page with the first child of each parent first; `own` those that
-- `addComment` put before all, the last first; `get_shown` says whether there is a link for more.
pub record Comments : Type 0 where
  pub num : ℕ
  pub got : ℕ
  pub num_text : Option ℕ
  pub nodes : List Comment
  pub own : List Comment
  pub get_shown : Bool
  pub author : Text
  pub field : Text
  pub at_add : Marks
  pub requests : List Request

abbrev pub has_node : ℕ → List Comment → Bool
has_node i [] = false
has_node i (n ∷ ns) = (n.id == i) || has_node i ns

abbrev pub find_node : ℕ → List Comment → Option Comment
find_node i [] = none
find_node i (n ∷ ns) = if n.id == i then some n else find_node i ns

abbrev pub remove_node : ℕ → List Comment → List Comment
remove_node i [] = []
remove_node i (n ∷ ns) = if n.id == i then ns else n ∷ remove_node i ns

-- `_nodeComment(v).appendTo(...)`: a node that is there is moved; where there is no parent, nothing
-- is appended. A node that is moved keeps its parent, since ids and parents of comments stay.
unfoldable pub append_node : Comment → List Comment → List Comment
unfolding node_comment
append_node v ns =
    if (v.pid == 0) || has_node v.pid ns
    then elim (find_node v.id ns) [
      | none ↦ ns ++ node_comment v ∷ []
      | some n ↦ remove_node v.id ns ++ n ∷ []
    ]
    else ns

-- The loop of `getComment`'s callback.
unfoldable pub append_all : List Comment → Comments → Comments
unfolding append_node
append_all [] c = c
append_all (v ∷ vs) c = append_all vs (record c { nodes = append_node v c.nodes; got = suc c.got })

-- `getComment`
unfoldable pub get_comment : Comments → Comments
get_comment c = record c { requests = c.requests ++ get_comments c.got ∷ [] }

-- Its answer: none that is good, or the number of all comments with some or with no object of them.
unfoldable pub on_comments : Option (ℕ × Option (List Comment)) → Comments → Comments
unfolding append_all
on_comments none c = c
on_comments (some (ntt, none)) c = record c { num = ntt; num_text = some ntt }
on_comments (some (ntt, some vs)) c =
    let d = append_all vs (record c { num = ntt; num_text = some ntt }) in
    record d { get_shown = ltb d.got d.num }

-- `addComment`
unfoldable pub add_comment : Bool → Comments → Comments
unfolding load
add_comment is_right c = if not is_right then c else record c {
  at_add = load "error" c.at_add;
  requests = c.requests ++ add_comment_request c.author c.field ∷ [];
}

-- The node of an own comment; `here`, `you` and `now` are the words of the page.
abbrev pub own_comment : Text → Text → Text → Text → Comment
own_comment here you now content = record {
  id = 0;
  pid = 0;
  addr = here;
  author = you;
  intime = now;
  content = content;
}

-- Its answer, with the content that was sent.
unfoldable pub on_add_comment : Text → Text → Text → Text → Option Text → Comments → Comments
unfolding settle node_comment
on_add_comment here you now content none c = record c {
  at_add = settle "text-error" none c.at_add;
  num = suc c.num;
  num_text = some (suc c.num);
  field = [];
  own = node_comment (own_comment here you now content) ∷ c.own;
}
on_add_comment here you now content (some s) c = record c {
  at_add = settle "text-error" (some s) c.at_add;
}
