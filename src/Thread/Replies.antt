-- ===== src/Thread/Replies.antt =====
-- Which comments are in the page, and to which thread a reply belongs.
use mathlib.Core.Path.{ap₂}
use mathlib.Core.List.{append-nil, append_assoc}
use cmoon.Base.{
  ℕ, zero, suc, ◌+◌, ◌≡◌, refl, sym, ◌∙◌, Bool, true, false, not, ◌&&◌, ◌||◌, List, [], ◌∷◌, ◌++◌,
  Option, none, some, get_elem?, map, length, ◌==◌, ==_iff, if◌then◌else◌, arith, subst, Bool-cases,
  Option-cases, inl, inr,
}
use cmoon.Thread.{
  Comment, Item, Thread, has_content, item_of, make_one, make_comment, mncomment, reply,
}

-- Every comment comes behind its parent.
abbrev pub are_behind : List Comment → List Item → Bool
unfolding item_of
are_behind [] ts = true
are_behind (c ∷ cs) ts = has_content c.pid ts && are_behind cs (ts ++ item_of c ∷ [])

abbrev pub added : List Comment → Thread → Thread
unfolding item_of
added cs t = record t { items = t.items ++ map item_of cs; num = t.num + length cs }

grown :
    (t : Thread) (is js : List Item) (m n : ℕ)
    → is ≡ js
    → m ≡ n
    → ◌≡◌ {A = Thread} (record t { items = is; num = m }) (record t { items = js; num = n })
grown t is js m n e g = ap₂ (λ x y. record t { items = x; num = y }) e g

make_comment-added :
    (cs : List Comment) (t : Thread) → are_behind cs t.items ≡ true → make_comment cs t ≡ added cs t
unfolding make_comment make_one are_behind added
make_comment-added [] t h =
    grown t t.items (t.items ++ []) t.num (t.num + 0) (sym (append-nil t.items)) (omega arith)
make_comment-added (c ∷ cs) t h =
    let one : has_content c.pid t.items ≡ true = ground (arith, h) in
    let others : are_behind cs (t.items ++ item_of c ∷ []) ≡ true = ground (arith, h) in
    rw one (
      make_comment-added cs (record t { items = t.items ++ item_of c ∷ []; num = suc t.num }) others
      ∙ grown t ((t.items ++ item_of c ∷ []) ++ map item_of cs)
          (t.items ++ item_of c ∷ map item_of cs) (suc t.num + length cs) (t.num + suc (length cs))
          (append_assoc t.items (item_of c ∷ []) (map item_of cs)) (omega arith))

-- If every comment comes behind its parent, `mncomment` puts all of them into the page, in their
-- order, and counts them.
pub mncomment-added :
    (cs : List Comment) (p z : ℕ)
    → are_behind cs [] ≡ true
    → mncomment cs p z ≡ added cs (record { items = []; num = 0; pid = p; zid = z })
unfolding mncomment
mncomment-added cs p z h =
    make_comment-added cs (record { items = []; num = 0; pid = p; zid = z }) h

-- There is a comment of the first level with the id.
abbrev pub has_top : ℕ → List Comment → Bool
has_top i [] = false
has_top i (c ∷ cs) = ((c.id == i) && (c.pid == 0)) || has_top i cs

-- The numbers of a comment: of the first level, or in the thread of a comment of the first level.
abbrev pub in_thread : ℕ → ℕ → List Comment → Bool
in_thread p z cs = if p == 0 then z == 0 else not (z == 0) && has_top z cs

abbrev pub are_threaded : List Comment → List Comment → Bool
are_threaded [] all = true
are_threaded (c ∷ cs) all = (not (c.id == 0) && in_thread c.pid c.zid all) && are_threaded cs all

-- The comments that the server has, and the page.
pub record Board : Type 0 where
  pub stored : List Comment
  pub thread : Thread

-- A reply to a stored comment is begun, or the form is sent and stored under the next id.
pub data Event : Type 0 where
  replied : ℕ → Event
  sent : Comment → Event

abbrev pub reply_to : Option Comment → Board → Board
unfolding reply
reply_to none b = b
reply_to (some c) b = record b { thread = reply c b.thread }

unfoldable pub step : Event → Board → Board
unfolding reply_to
step (replied k) b = reply_to (get_elem? b.stored k) b
step (sent c) b = record b {
  stored =
      b.stored
      ++ record c { id = suc (length b.stored); pid = b.thread.pid; zid = b.thread.zid } ∷ [];
}

unfoldable pub run : List Event → Board → Board
unfolding step
run [] b = b
run (e ∷ es) b = run es (step e b)

abbrev pub IsThreaded : Board → Type 0
IsThreaded b =
    (are_threaded b.stored b.stored ≡ true) × (in_thread b.thread.pid b.thread.zid b.stored ≡ true)

has_top-append :
    (i : ℕ) (c : Comment) (cs : List Comment)
    → has_top i cs ≡ true
    → has_top i (cs ++ c ∷ []) ≡ true
has_top-append i c [] h = absurd (cc)
has_top-append i c (d ∷ cs) h = ground (arith, h, has_top-append i c cs)

in_thread-append :
    (p z : ℕ) (c : Comment) (cs : List Comment)
    → in_thread p z cs ≡ true
    → in_thread p z (cs ++ c ∷ []) ≡ true
in_thread-append p z c cs h = ground (arith, h, has_top-append z c cs)

are_threaded-append :
    (cs all : List Comment) (c : Comment)
    → are_threaded cs all ≡ true
    → are_threaded cs (all ++ c ∷ []) ≡ true
are_threaded-append [] all c h = refl
are_threaded-append (d ∷ cs) all c h =
    ground (arith, h, in_thread-append d.pid d.zid c all, are_threaded-append cs all c)

are_threaded-last :
    (cs all : List Comment) (c : Comment)
    → are_threaded cs all ≡ true
    → (not (c.id == 0) && in_thread c.pid c.zid all) ≡ true
    → are_threaded (cs ++ c ∷ []) all ≡ true
are_threaded-last [] all c h k = ground (arith, h, k)
are_threaded-last (d ∷ cs) all c h k = ground (arith, h, are_threaded-last cs all c, k)

some_inj : {c d : Comment} → some c ≡ some d → c ≡ d
some_inj e = cc

top_there :
    (k : ℕ) (cs : List Comment) (c : Comment)
    → get_elem? cs k ≡ some c
    → c.pid ≡ 0
    → has_top c.id cs ≡ true
top_there k [] c h e = absurd (cc)
top_there zero (d ∷ cs) c h e =
    subst (λ x. has_top x.id (d ∷ cs) ≡ true) (some_inj h)
      (ground (arith, subst (λ x. x.pid ≡ 0) (sym (some_inj h)) e))
top_there (suc k) (d ∷ cs) c h e = ground (arith, top_there k cs c h e)

threaded_there :
    (k : ℕ) (cs all : List Comment) (c : Comment)
    → get_elem? cs k ≡ some c
    → are_threaded cs all ≡ true
    → (not (c.id == 0) && in_thread c.pid c.zid all) ≡ true
threaded_there k [] all c h t = absurd (cc)
threaded_there zero (d ∷ cs) all c h t =
    subst (λ x. (not (x.id == 0) && in_thread x.pid x.zid all) ≡ true) (some_inj h)
      (ground (arith, t))
threaded_there (suc k) (d ∷ cs) all c h t =
    let rest : are_threaded cs all ≡ true = ground (arith, t) in threaded_there k cs all c h rest

reply-in_thread :
    (k : ℕ) (cs : List Comment) (c : Comment)
    → get_elem? cs k ≡ some c
    → are_threaded cs cs ≡ true
    → in_thread c.id (if c.zid == 0 then c.id else c.zid) cs ≡ true
reply-in_thread k cs c h t = elim (Bool-cases (c.pid == 0)) [
  | inl e ↦
      let top : has_top c.id cs ≡ true = top_there k cs c h ((==_iff c.pid 0).0 e) in
      ground (arith, threaded_there k cs cs c h t, e, top)
  | inr e ↦ ground (arith, threaded_there k cs cs c h t, e)
]

step-IsThreaded : (e : Event) (b : Board) → IsThreaded b → IsThreaded (step e b)
unfolding step reply_to reply
step-IsThreaded (replied k) b (h, g) = elim (Option-cases (get_elem? b.stored k)) [
  | inl e ↦ rw e (h, g)
  | inr (c, e) ↦ rw e (h, reply-in_thread k b.stored c e h)
]
step-IsThreaded (sent c) b (h, g) =
    let d : Comment = record c {
      id = suc (length b.stored);
      pid = b.thread.pid;
      zid = b.thread.zid;
    } in
    let all : List Comment = b.stored ++ d ∷ [] in
    let here : in_thread d.pid d.zid all ≡ true = in_thread-append d.pid d.zid d b.stored g in
    let new : (not (d.id == 0) && in_thread d.pid d.zid all) ≡ true = ground (arith, here) in
    (
      are_threaded-last b.stored all d (are_threaded-append b.stored b.stored d h) new,
      in_thread-append b.thread.pid b.thread.zid d b.stored g,
    )

-- From a board whose comments and form are in threads, whatever is replied to and sent, in any order:
-- every stored comment is of the first level, or its `zid` is the id of a comment of the first level;
-- and so it is with the form.
pub run-IsThreaded : (es : List Event) (b : Board) → IsThreaded b → IsThreaded (run es b)
unfolding run
run-IsThreaded [] b h = h
run-IsThreaded (e ∷ es) b h = run-IsThreaded es (step e b) (step-IsThreaded e b h)
