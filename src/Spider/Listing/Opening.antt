-- ===== src/Spider/Listing/Opening.antt =====
-- The pages that the answer to a list opens are those of its ids.
use cmoon.Base.{
  ℕ, ◌≡◌, refl, ap, sym, ◌∙◌, Bool, true, false, ◌||◌, ◌&&◌, List, [], ◌∷◌, ◌++◌, Option, none,
  some, map, ◌==◌, if◌then◌else◌, Text, text_eq, text_eq_iff, arith, Bool-cases, Option-cases, inl,
  inr,
}
use cmoon.Fields.{is_digit}
use cmoon.Spider.{
  after_prefix, Pattern, group, not_empty, capture, captured, matched, Site, numbered, Reading,
  node, nothing, onready,
}
use cmoon.Spider.Listing.{
  Urls, url_of, put_url, Listed, id_of, note, note_all, parse_list, Opened, windows, all_done,
  alerts, open_all, on_told,
}

abbrev has_slash : Text → Bool
has_slash [] = false
has_slash (c ∷ s) = (c == b'/') || has_slash s

digit_ne : (c : ℕ) → is_digit c ≡ true → (c == b'/') ≡ false
digit_ne c h = ground (arith, h)

some_inj : {i j : Text} → some i ≡ some j → i ≡ j
some_inj e = cc

module _ (t : Text) (c : ℕ) (s i : Text) (q : text_eq (c ∷ s) t ≡ false) where
  group_nothing :
      is_digit c ≡ true → group is_digit t s ≡ none → group is_digit t (c ∷ s) ≡ some i → ⊥
  unfolding group
  group_nothing d g = rw (q, d, g) (λ e. cc)

  group_outside : is_digit c ≡ false → group is_digit t (c ∷ s) ≡ some i → ⊥
  unfolding group
  group_outside d = rw (q, d) (λ e. cc)

-- A text that a number and the tail make has no slash.
group-has_slash :
    (t s i : Text) → has_slash t ≡ false → group is_digit t s ≡ some i → has_slash s ≡ false
unfolding group
group-has_slash t [] i h e = refl
group-has_slash t (c ∷ s) i h e = elim (Bool-cases (text_eq (c ∷ s) t)) [
  | inl q ↦ ap has_slash ((text_eq_iff (c ∷ s) t).0 q) ∙ h
  | inr q ↦ elim (Bool-cases (is_digit c)) [
    | inl d ↦ elim (Option-cases (group is_digit t s)) [
      | inl g ↦ absurd (group_nothing t c s i q d g e)
      | inr (j, g) ↦ rw (digit_ne c d) (group-has_slash t s j h g)
    ]
    | inr d ↦ absurd (group_outside t c s i q d e)
  ]
]

-- Without a slash nothing is a node.
matched-has_slash :
    (t s : Text)
    → has_slash s ≡ false
    → matched (record { lead = b'/' ∷ []; is_inner = is_digit; may_be_empty = false; tail = t }) s
      ≡ none
unfolding matched
matched-has_slash t [] h = refl
matched-has_slash t (c ∷ s) h =
    let here : (b'/' == c) ≡ false = ground (arith, h) in
    let rest : has_slash s ≡ false = ground (arith, h) in rw (matched-has_slash t s rest, here) refl

abbrev node_of : Text → Pattern
node_of t = record { lead = b'/' ∷ []; is_inner = is_digit; may_be_empty = false; tail = t }

abbrev link_of : Text → Text → Pattern
link_of p t = record { lead = p ++ b'/' ∷ []; is_inner = is_digit; may_be_empty = false; tail = t }

grouped : (o : Option Text) (i : Text) → not_empty false o ≡ some i → o ≡ some i
grouped none i e = e
grouped (some []) i e = absurd (cc)
grouped (some (c ∷ j)) i e = e

-- What follows the last slash of a link is read in its address as well.
lead-matched :
    (p t s i : Text)
    → has_slash t ≡ false
    → captured (node_of t) (after_prefix (p ++ b'/' ∷ []) s) ≡ some i
    → matched (node_of t) s ≡ some i
unfolding matched capture
lead-matched [] t [] i h = λ e. absurd (cc)
lead-matched [] t (d ∷ s) i h = elim (Bool-cases (b'/' == d)) [
  | inl q ↦ rw q (λ e.
      rw (matched-has_slash t s (group-has_slash t s i h (grouped (group is_digit t s) i e))) e)
  | inr q ↦ rw q (λ e. absurd (cc))
]
lead-matched (q ∷ p) t [] i h = λ e. absurd (cc)
lead-matched (q ∷ p) t (d ∷ s) i h = elim (Bool-cases ((q == b'.') || (q == d))) [
  | inl k ↦ rw k (λ e. rw (lead-matched p t s i h e) refl)
  | inr k ↦ rw k (λ e. absurd (cc))
]

same_capture : (p t : Text) (o : Option Text) → captured (link_of p t) o ≡ captured (node_of t) o
unfolding capture
same_capture p t none = refl
same_capture p t (some s) = refl

link-matched :
    (p t s i : Text)
    → has_slash t ≡ false
    → matched (link_of p t) s ≡ some i
    → matched (node_of t) s ≡ some i
unfolding matched
link-matched p t [] i h =
    λ e. lead-matched p t [] i h (sym (same_capture p t (after_prefix (p ++ b'/' ∷ []) [])) ∙ e)
link-matched p t (c ∷ s) i h = elim (Option-cases (matched (link_of p t) s)) [
  | inl n ↦ rw n (λ e.
      lead-matched p t (c ∷ s) i h
        (sym (same_capture p t (after_prefix (p ++ b'/' ∷ []) (c ∷ s))) ∙ e))
  | inr (j, g) ↦ rw (g, link-matched p t s j h g) (λ e. e)
]

abbrev pub has_id : Text → List Text → Bool
has_id i [] = false
has_id i (j ∷ is) = text_eq i j || has_id i is

abbrev pub has_all : List Text → List Text → Bool
has_all [] is = true
has_all (v ∷ vs) is = has_id v is && has_all vs is

has_id-append :
    (i j : Text) (is : List Text) → has_id i (is ++ j ∷ []) ≡ (has_id i is || text_eq i j)
has_id-append i j [] = ground arith
has_id-append i j (k ∷ is) = ground (arith, has_id-append i j is)

url_of-put_url :
    (i j u : Text) (m : Urls)
    → url_of i (put_url j u m) ≡ (if text_eq i j then some u else url_of i m)
unfolding url_of put_url
url_of-put_url i j u [] = refl
url_of-put_url i j u ((k, v) ∷ m) =
    ground (arith, text_eq_iff i j, text_eq_iff i k, text_eq_iff j k, url_of-put_url i j u m)

-- What the window of an address is read as.
abbrev pub page_of : Site → Option Text → Reading
page_of w none = nothing
page_of w (some u) = onready w u

abbrev pub pages_of : Site → Opened → List Reading
pages_of w (windows us) = map (page_of w) us
pages_of w all_done = []
pages_of w alerts = []

module _ (p t list : Text) (h : has_slash t ≡ false) where
  onready-id_of :
      (u i : Text) → id_of (numbered p t list) u ≡ some i → onready (numbered p t list) u ≡ node i
  unfolding onready
  onready-id_of u i = elim (Option-cases (matched (link_of p t) u)) [
    | inl n ↦ rw n (λ e. absurd (cc))
    | inr (j, g) ↦ rw (g, link-matched p t u j h g) (λ e. ap node (some_inj e))
  ]

  -- Every id is one whose address is read as it.
  abbrev IsRead : Listed → Type 0
  IsRead l =
      (i : Text) → has_id i l.ids ≡ true → page_of (numbered p t list) (url_of i l.urls) ≡ node i

  note-IsRead :
      (u : Text) (o : Option Text) (l : Listed)
      → id_of (numbered p t list) u ≡ o
      → IsRead l
      → IsRead (note (numbered p t list) u o l)
  unfolding note
  note-IsRead u none l e k = k
  note-IsRead u (some j) l e k = λ i m. elim (Bool-cases (text_eq i j)) [
    | inl q ↦
        rw (url_of-put_url i j u l.urls, q)
          (onready-id_of u j e ∙ ap node (sym ((text_eq_iff i j).0 q)))
    | inr q ↦
        rw (url_of-put_url i j u l.urls, q) (k i (ground (arith, has_id-append i j l.ids, m, q)))
  ]

  note_all-IsRead :
      (us : List Text) (l : Listed) → IsRead l → IsRead (note_all (numbered p t list) us l)
  unfolding note_all
  note_all-IsRead [] l k = k
  note_all-IsRead (u ∷ us) l k =
      note_all-IsRead us (note (numbered p t list) u (id_of (numbered p t list) u) l)
        (note-IsRead u (id_of (numbered p t list) u) l refl k)

  pages_of_asked :
      (l : Listed) (vs : List Text)
      → IsRead l
      → has_all vs l.ids ≡ true
      → map (page_of (numbered p t list)) (map (λ v. url_of v l.urls) vs) ≡ map node vs
  pages_of_asked l [] k m = refl
  pages_of_asked l (v ∷ vs) k m =
      let one : has_id v l.ids ≡ true = ground (arith, m) in
      let others : has_all vs l.ids ≡ true = ground (arith, m) in
      ap (λ r. r ∷ map (page_of (numbered p t list)) (map (λ v. url_of v l.urls) vs)) (k v one)
      ∙ ap (λ rs. node v ∷ rs) (pages_of_asked l vs k others)

  -- On a site whose nodes have a number as their id, whatever the links of a list are: if all the ids
  -- of the answer are among those that were asked for, then one window is opened for each of them, in
  -- turn, and `onready` reads its page as the node of this very id. The tail of an address must have
  -- no slash.
  pub on_told-node :
      (links vs : List Text)
      → has_all vs (parse_list (numbered p t list) links).ids ≡ true
      → pages_of
          (numbered p t list)
          (on_told (parse_list (numbered p t list) links).urls (true, some vs))
        ≡ map node vs
  unfolding on_told parse_list open_all
  on_told-node links vs m =
      pages_of_asked (note_all (numbered p t list) links (record { ids = []; urls = [] })) vs
        (note_all-IsRead links (record { ids = []; urls = [] }) (λ i e. absurd (cc))) m
