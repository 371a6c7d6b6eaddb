-- ===== src/Comments/Fetching.antt =====
-- The comments that are part_came, part by part.
use mathlib.Core.List.{append-nil, append_assoc, map-append}
use cmoon.Base.{
  ap, sym, subst, ◌∙◌, ℕ, suc, ◌+◌, ◌≡◌, refl, true, false, ◌||◌, List, [], ◌∷◌, ◌++◌, map, none,
  some, ltb, ◌==◌, length, length-append, length-map, arith,
}
use cmoon.Comments.{
  Comment, Comments, Request, get_comments, node_comment, has_node, find_node, append_node,
  append_all, get_comment, on_comments,
}

-- Comments in an order in which none is there twice and none comes before the one that it answers.
abbrev pub Grows : List Comment → List Comment → Type 0
Grows seen [] = Unit
Grows seen (v ∷ vs) =
    (has_node v.id seen ≡ false)
    × (((v.pid == 0) || has_node v.pid seen) ≡ true)
    × Grows (seen ++ node_comment v ∷ []) vs

abbrev pub concat : List (List Comment) → List Comment
concat [] = []
concat (p ∷ ps) = p ++ concat ps

-- Where the parts begin, behind so many comments.
abbrev pub offsets : ℕ → List (List Comment) → List Request
offsets n [] = []
offsets n (p ∷ ps) = get_comments n ∷ offsets (n + length p) ps

-- The link is clicked, and its part of `ntt` comments comes, for each part.
unfoldable pub fetches : ℕ → List (List Comment) → Comments → Comments
fetches ntt [] c = c
fetches ntt (p ∷ ps) c = fetches ntt ps (on_comments (some (ntt, some p)) (get_comment c))

find_none : (i : ℕ) (ns : List Comment) → has_node i ns ≡ false → find_node i ns ≡ none
find_none i [] h = refl
find_none i (n ∷ ns) h = ground (arith, h, find_none i ns)

appended :
    (v : Comment) (ns : List Comment)
    → has_node v.id ns ≡ false
    → ((v.pid == 0) || has_node v.pid ns) ≡ true
    → append_node v ns ≡ ns ++ node_comment v ∷ []
unfolding append_node
appended v ns h k = let none_yet = find_none v.id ns h in rw (k, none_yet) refl

-- What a part does to the page.
record Takes (vs : List Comment) (c d : Comments) : Type 0 where
  nodes : d.nodes ≡ c.nodes ++ map node_comment vs
  got : d.got ≡ c.got + length vs
  requests : d.requests ≡ c.requests
  num : d.num ≡ c.num

append_all-Takes :
    (vs : List Comment) (c : Comments) → Grows c.nodes vs → Takes vs c (append_all vs c)
unfolding append_all
append_all-Takes [] c h = record {
  nodes = sym (append-nil c.nodes);
  got = omega arith;
  requests = refl;
  num = refl;
}
append_all-Takes (v ∷ vs) c (h, k, g) =
    let e = appended v c.nodes h k in
    let d : Comments = record c { nodes = append_node v c.nodes; got = suc c.got } in
    let t = append_all-Takes vs d (subst (λ ns. Grows ns vs) (sym e) g) in
    record {
      nodes =
          t.nodes
          ∙ ap (λ ns. ns ++ map node_comment vs) e
          ∙ append_assoc c.nodes (node_comment v ∷ []) (map node_comment vs);
      got = omega (arith, t.got);
      requests = t.requests;
      num = t.num;
    }

Grows-append :
    (p q seen : List Comment)
    → Grows seen (p ++ q)
    → Grows seen p × Grows (seen ++ map node_comment p) q
Grows-append [] q seen h = (tt, subst (λ ns. Grows ns q) (sym (append-nil seen)) h)
Grows-append (v ∷ p) q seen (h, k, g) =
    let (a, b) = Grows-append p q (seen ++ node_comment v ∷ []) g in
    (
      (h, k, a),
      subst (λ ns. Grows ns q) (append_assoc seen (node_comment v ∷ []) (map node_comment p)) b,
    )

abbrev part_came : ℕ → List Comment → Comments → Comments
part_came ntt p c = on_comments (some (ntt, some p)) (get_comment c)

-- What one part does.
record IsFetched (ntt : ℕ) (p : List Comment) (c : Comments) : Type 0 where
  nodes : (part_came ntt p c).nodes ≡ c.nodes ++ map node_comment p
  got : (part_came ntt p c).got ≡ c.got + length p
  requests : (part_came ntt p c).requests ≡ c.requests ++ get_comments c.got ∷ []
  shown : (part_came ntt p c).get_shown ≡ ltb (part_came ntt p c).got ntt

part_came-IsFetched :
    (ntt : ℕ) (p : List Comment) (c : Comments) → Grows c.nodes p → IsFetched ntt p c
unfolding on_comments get_comment
part_came-IsFetched ntt p c g =
    let d : Comments = record c {
      num = ntt;
      num_text = some ntt;
      requests = c.requests ++ get_comments c.got ∷ [];
    } in
    let t = append_all-Takes p d g in
    record {
      nodes = t.nodes;
      got = t.got;
      requests = t.requests;
      shown = ap (ltb (append_all p d).got) t.num;
    }

length-part_came :
    (ntt : ℕ) (p : List Comment) (c : Comments)
    → Grows c.nodes p
    → length c.nodes ≡ c.got
    → length (part_came ntt p c).nodes ≡ (part_came ntt p c).got
length-part_came ntt p c g k =
    let t = part_came-IsFetched ntt p c g in
    omega (
      arith,
      k,
      t.got,
      ap length t.nodes,
      length-append c.nodes (map node_comment p),
      length-map p node_comment,
    )

-- From a page that holds as many comments as it counts, if no comment comes twice or before the one
-- that it answers, and every part comes before the next click: the page then has all comments of the
-- parts in their order and escaped, each part was asked for where the one before it ends, and there
-- is a link for more exactly if the last count is below the number of all.
pub fetches-nodes :
    (ntt : ℕ) (p : List Comment) (ps : List (List Comment)) (c : Comments)
    → Grows c.nodes (concat (p ∷ ps))
    → length c.nodes ≡ c.got
    → (let d = fetches ntt (p ∷ ps) c in
        (d.nodes ≡ c.nodes ++ map node_comment (concat (p ∷ ps)))
        × (d.requests ≡ c.requests ++ offsets c.got (p ∷ ps))
        × (d.get_shown ≡ ltb (length d.nodes) ntt))
unfolding fetches
fetches-nodes ntt p [] c g k =
    let g' = (Grows-append p [] c.nodes g).0 in
    let t = part_came-IsFetched ntt p c g' in
    (
      t.nodes ∙ ap (λ vs. c.nodes ++ map node_comment vs) (sym (append-nil p)),
      t.requests,
      t.shown ∙ ap (λ n. ltb n ntt) (sym (length-part_came ntt p c g' k)),
    )
fetches-nodes ntt p (q ∷ qs) c g k =
    let (a, b) = Grows-append p (concat (q ∷ qs)) c.nodes g in
    let t = part_came-IsFetched ntt p c a in
    let d = part_came ntt p c in
    let (x, y, z) =
      fetches-nodes ntt q qs d (subst (λ ns. Grows ns (concat (q ∷ qs))) (sym t.nodes) b)
        (length-part_came ntt p c a k) in
    (
      x
          ∙ ap (λ ns. ns ++ map node_comment (concat (q ∷ qs))) t.nodes
          ∙ append_assoc c.nodes (map node_comment p) (map node_comment (concat (q ∷ qs)))
          ∙ ap (λ vs. c.nodes ++ vs) (sym (map-append node_comment p (concat (q ∷ qs)))),
      y
          ∙ ap (λ n. d.requests ++ offsets n (q ∷ qs)) t.got
          ∙ ap (λ rs. rs ++ offsets (c.got + length p) (q ∷ qs)) t.requests
          ∙ append_assoc c.requests (get_comments c.got ∷ []) (offsets (c.got + length p) (q ∷ qs)),
      z,
    )
