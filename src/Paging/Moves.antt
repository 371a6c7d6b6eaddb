-- ===== src/Paging/Moves.antt =====
-- The moves of the navigation bar, lib/js/jquery.mnnav.js.
use cmoon.Base.{
  suc, ◌*◌, ◌/◌, ◌↔◌, ◌++◌, map, sym, ◌∙◌, ◌||◌, ◌==◌, ℕ, ◌+◌, ◌-◌, ◌≤◌, ◌<◌, Option, none, some,
  ◌≡◌, refl, Text, decimal, ltb, if◌then◌else◌, arith, List, [], ◌∷◌, ◌⊎◌, inl, inr, Bool-cases,
  Option-cases,
}
use cmoon.Paging.Numerals.{parse_int, parse_int-decimal, Parsed, nan, minus, plus}
use mathlib.Core.List.{append-nil, append_assoc, map-append}
use native.Mathlib.Nat.{le-div_iff_mul-le}
use cmoon.Paging.{
  Options, total_pages, target, Nav, goto_page, goto_number, visit, refuse, click, Link, first,
  last, prev, next, link_rel, rel_of, is_before, is_beyond,
}

pub goto_page-decimal :
    (p t : ℕ) (url : Text) (v : Nav)
    → 1 ≤ p
    → p ≤ t
    → goto_page (decimal p) (some t) url v ≡ visit url p v
unfolding goto_page goto_number is_beyond
goto_page-decimal p t url v h k = rw (goto_page, parse_int-decimal p) (ground arith)

-- The page that a link is meant for; `none` where the bar of page `c` has no such link.
unfoldable pub destination : ℕ → ℕ → Link → Option ℕ
destination c t first = some 1
destination c t last = some t
destination c t prev = if ltb 1 c then some (c - 1) else none
destination c t next = if ltb c t then some (c + 1) else none

pub arrive : Option ℕ → Text → Nav → Nav
arrive none url v = v
arrive (some p) url v = visit url p v

-- At a bar that shows a page `c` from 1 to its last page `t`, each link that it has goes to the page
-- it is meant for: 1, `t`, `c - 1` or `c + 1`.
click-arrive :
    (c t : ℕ) (url : Text) (l : Link) (v : Nav)
    → 1 ≤ c
    → c ≤ t
    → click c (some t) url l v ≡ arrive (destination c t l) url v
unfolding click link_rel rel_of is_before destination arrive
click-arrive c t url first v h k = goto_page-decimal 1 t url v (omega arith) (omega arith)
click-arrive c t url last v h k = goto_page-decimal t t url v (omega arith) (omega arith)
click-arrive c t url prev v h k = elim (Bool-cases (ltb 1 c)) [
  | inl e ↦ rw (click, e) (goto_page-decimal (c - 1) t url v (ground arith) (ground arith))
  | inr e ↦ rw (click, e) refl
]
click-arrive c t url next v h k = elim (Bool-cases (ltb c t)) [
  | inl e ↦ rw (click, e) (goto_page-decimal (c + 1) t url v (ground arith) (ground arith))
  | inr e ↦ rw (click, e) refl
]

page_iff : (p k n : ℕ) → 0 < k → (p < (n + k - 1) / k) ↔ (p * k < n)
page_iff p k n h =
    let le = le-div_iff_mul-le {k = k} {x = suc p} {y = n + k - 1} h in grind (arith, le)

total_pages_cases :
    (o : Options)
    → (total_pages o ≡ none) ⊎ ((0 < o.npp) × (total_pages o ≡ some ((o.ntt + o.npp - 1) / o.npp)))
unfolding total_pages
total_pages_cases o = ground arith

-- Where the number of pages is a number `t`, `p` is less than `t` if and only if the pages before
-- page `p + 1` do not hold all items.
total_pages_iff : (o : Options) (t p : ℕ) → total_pages o ≡ some t → (p < t) ↔ (p * o.npp < o.ntt)
unfolding total_pages
total_pages_iff o t p h = elim (total_pages_cases o) [
  | inl z ↦ absurd (ground (arith, z))
  | inr (k, e) ↦
      let here : (p < (o.ntt + o.npp - 1) / o.npp) ↔ (p * o.npp < o.ntt) =
        page_iff p o.npp o.ntt k in
      ground (arith, here, e, h)
]

-- What a reader does at a bar: a number is entered, or a link clicked.
pub data Move : Type 0 where
  entered : Text → Move
  clicked : Link → Move

unfoldable pub move : ℕ → Option ℕ → Text → Move → Nav → Nav
move c t url (entered pn) v = goto_page pn t url v
move c t url (clicked l) v = click c t url l v

unfoldable pub moves : ℕ → Option ℕ → Text → List Move → Nav → Nav
unfolding move
moves c t url [] v = v
moves c t url (m ∷ ms) v = moves c t url ms (move c t url m v)

abbrev pub ArePages : ℕ → List ℕ → Type 0
ArePages t [] = Unit
ArePages t (p ∷ ps) = (1 ≤ p) × ((p ≤ t) × ArePages t ps)

-- From `v` to `w` the reader went to pages between 1 and `t` only.
abbrev pub WentToPages : ℕ → Text → Nav → Nav → Type 0
WentToPages t url v w = (ps : List ℕ) × (ArePages t ps × (w.gone ≡ v.gone ++ map (target url) ps))

stays : (t : ℕ) (url : Text) (v w : Nav) → w.gone ≡ v.gone → WentToPages t url v w
stays t url v w e = ([], (tt, e ∙ sym (append-nil v.gone)))

goto_number-WentToPages :
    (r : Parsed) (t : ℕ) (url : Text) (v : Nav) → WentToPages t url v (goto_number r (some t) url v)
unfolding goto_number is_beyond refuse visit
goto_number-WentToPages nan t url v = stays t url v (refuse v) refl
goto_number-WentToPages (minus n) t url v = stays t url v (refuse v) refl
goto_number-WentToPages (plus n) t url v = elim (Bool-cases ((n == 0) || ltb t n)) [
  | inl e ↦ rw (goto_number, e) (stays t url v (refuse v) refl)
  | inr e ↦ rw (goto_number, e) (n ∷ [], ((ground arith, (ground arith, tt)), refl))
]

goto_page-WentToPages :
    (pn : Text) (t : ℕ) (url : Text) (v : Nav) → WentToPages t url v (goto_page pn (some t) url v)
unfolding goto_page
goto_page-WentToPages pn t url v = goto_number-WentToPages (parse_int pn) t url v

click-WentToPages :
    (c t : ℕ) (url : Text) (l : Link) (v : Nav) → WentToPages t url v (click c (some t) url l v)
unfolding click
click-WentToPages c t url l v = elim (Option-cases (link_rel c (some t) l)) [
  | inl e ↦ rw (click, e) (stays t url v v refl)
  | inr (rel, e) ↦ rw (click, e) (goto_page-WentToPages rel t url v)
]

move-WentToPages :
    (c t : ℕ) (url : Text) (m : Move) (v : Nav) → WentToPages t url v (move c (some t) url m v)
unfolding move
move-WentToPages c t url (entered pn) v = goto_page-WentToPages pn t url v
move-WentToPages c t url (clicked l) v = click-WentToPages c t url l v

ArePages-++ : (t : ℕ) (ps qs : List ℕ) → ArePages t ps → ArePages t qs → ArePages t (ps ++ qs)
ArePages-++ t [] qs h k = k
ArePages-++ t (p ∷ ps) qs (a, (b, h)) k = (a, (b, ArePages-++ t ps qs h k))

-- Whatever is entered and clicked at a bar of `t` pages, the moves lead to pages between 1 and `t`
-- only, each added behind those gone to before.
pub moves-WentToPages :
    (c t : ℕ) (url : Text) (ms : List Move) (v : Nav)
    → WentToPages t url v (moves c (some t) url ms v)
unfolding moves
moves-WentToPages c t url [] v = stays t url v v refl
moves-WentToPages c t url (m ∷ ms) v =
    let (ps, (hp, ep)) = move-WentToPages c t url m v in
    let (qs, (hq, eq)) = moves-WentToPages c t url ms (move c (some t) url m v) in
    (
      ps ++ qs,
      (
        ArePages-++ t ps qs hp hq,
        cc (
          ep,
          eq,
          append_assoc v.gone (map (target url) ps) (map (target url) qs),
          map-append (target url) ps qs,
        ),
      ),
    )

-- Nothing was gone to, or one page.
abbrev pub OneAtMost : Text → Nav → Nav → Type 0
OneAtMost url v w = ((w.gone ≡ v.gone) × (w.cpg ≡ v.cpg)) ⊎ ((p : ℕ) × (w ≡ visit url p v))

goto_number-OneAtMost :
    (r : Parsed) (t : Option ℕ) (url : Text) (v : Nav) → OneAtMost url v (goto_number r t url v)
unfolding goto_number refuse
goto_number-OneAtMost nan t url v = inl (refl, refl)
goto_number-OneAtMost (minus n) t url v = inl (refl, refl)
goto_number-OneAtMost (plus n) t url v = elim (Bool-cases ((n == 0) || is_beyond n t)) [
  | inl e ↦ rw (goto_number, e) (inl (refl, refl))
  | inr e ↦ rw (goto_number, e) (inr (n, refl))
]

goto_page-OneAtMost :
    (pn : Text) (t : Option ℕ) (url : Text) (v : Nav) → OneAtMost url v (goto_page pn t url v)
unfolding goto_page
goto_page-OneAtMost pn t url v = goto_number-OneAtMost (parse_int pn) t url v

pub move-OneAtMost :
    (c : ℕ) (t : Option ℕ) (url : Text) (m : Move) (v : Nav) → OneAtMost url v (move c t url m v)
unfolding move click
move-OneAtMost c t url (entered pn) v = goto_page-OneAtMost pn t url v
move-OneAtMost c t url (clicked l) v = elim (Option-cases (link_rel c t l)) [
  | inl e ↦ rw (click, e) (inl (refl, refl))
  | inr (rel, e) ↦ rw (click, e) (goto_page-OneAtMost rel t url v)
]
