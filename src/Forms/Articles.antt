-- ===== src/Forms/Articles.antt =====
-- The forms of articles, dida/fly/js/bore/op.js and pop/fly/js/blog/op.js.
use mathlib.Core.List.{append-nil, append_assoc}
use cmoon.Base.{
  ap, sym, inl, inr, Bool-cases, ◌≡◌, refl, ◌∙◌, String, Bool, true, not, List, [], ◌∷◌, ◌++◌,
  Option, none, some, if◌then◌else◌, str_eq, Text,
}
use cmoon.Forms.{Note, Marks, without, load, settle}

pub data Request : Type 0 where
  write_article : String → Text → Text → Text → Request
  set_state : Bool → Request

-- `op` is `mgd.op`, or `none` where there is none.
pub record Article : Type 0 where
  pub op : Option String
  pub title : Text
  pub hint : Text
  pub content : Text
  pub at_submit : Marks
  pub requests : List Request

abbrev pub op_name : Option String → String
op_name none = "add"
op_name (some s) = s

-- `boreOp`, and its answer.
unfoldable pub bore_op : Bool → Article → Article
unfolding load
bore_op is_right a = if not is_right then a else record a {
  at_submit = load "error" a.at_submit;
  requests = a.requests ++ write_article (op_name a.op) a.title a.hint a.content ∷ [];
}

unfoldable pub on_bore_op : Option Text → Article → Article
unfolding settle
on_bore_op none a = record a {
  at_submit = settle "text-error" none a.at_submit;
  title = [];
  hint = [];
  content = [];
}
on_bore_op (some s) a = record a { at_submit = settle "text-error" (some s) a.at_submit }

-- `boreDel`, where the question is answered with yes or no, and its answer.
unfoldable pub bore_del : Bool → Bool → Article → Article
unfolding load
bore_del is_confirmed statu a =
    if is_confirmed
    then record a {
      at_submit = load "error" a.at_submit;
      requests = a.requests ++ set_state statu ∷ [];
    }
    else a

unfoldable pub on_bore_del : Option Text → Article → Article
unfolding settle
on_bore_del o a = record a { at_submit = settle "text-error" o a.at_submit }

-- `blogOp`, which has no hint, and its answer.
unfoldable pub blog_op : Bool → Article → Article
unfolding load
blog_op is_right a = if not is_right then a else record a {
  at_submit = load "error" a.at_submit;
  requests = a.requests ++ write_article (op_name a.op) a.title [] a.content ∷ [];
}

unfoldable pub on_blog_op : Option Text → Article → Article
unfolding settle
on_blog_op none a = record a {
  at_submit = settle "text-error" none a.at_submit;
  title = [];
  content = [];
}
on_blog_op (some s) a = record a { at_submit = settle "text-error" (some s) a.at_submit }

-- `blogDel`, and its answer.
unfoldable pub blog_del : Bool → Bool → Article → Article
unfolding load
blog_del is_confirmed state a =
    if is_confirmed
    then record a {
      at_submit = load "error" a.at_submit;
      requests = a.requests ++ set_state state ∷ [];
    }
    else a

unfoldable pub on_blog_del : Option Text → Article → Article
unfolding settle
on_blog_del o a = record a { at_submit = settle "text-error" o a.at_submit }

-- An article is sent, or its state, and the answer comes.
pub data Turn : Type 0 where
  sent stated : Option Text → Turn

unfoldable pub turn : Turn → Article → Article
unfolding bore_op on_bore_op bore_del on_bore_del
turn (sent o) a = on_bore_op o (bore_op true a)
turn (stated o) a = on_bore_del o (bore_del true true a)

unfoldable pub turns : List Turn → Article → Article
turns [] a = a
turns (t ∷ ts) a = turns ts (turn t a)

-- The notes of the errors among the answers.
abbrev pub note_of : Option Text → List Note
note_of none = []
note_of (some s) = record { cls = "text-error"; msg = s } ∷ []

abbrev pub errors : List Turn → List Note
errors [] = []
errors (sent o ∷ ts) = note_of o ++ errors ts
errors (stated o ∷ ts) = note_of o ++ errors ts

-- No note of the form has the class that is removed.
abbrev pub Stays : List Note → Type 0
Stays ns = without "error" ns ≡ ns

without-append :
    (sel : String) (xs ys : List Note) → without sel (xs ++ ys) ≡ without sel xs ++ without sel ys
without-append sel [] ys = refl
without-append sel (x ∷ xs) ys = elim (Bool-cases (str_eq x.cls sel)) [
  | inl e ↦ rw e (without-append sel xs ys)
  | inr e ↦ rw e (ap (λ r. x ∷ r) (without-append sel xs ys))
]

note_of-Stays : (o : Option Text) → Stays (note_of o)
note_of-Stays none = refl
note_of-Stays (some s) = refl

settle-load-notes :
    (o : Option Text) (m : Marks)
    → Stays m.notes
    → (settle "text-error" o (load "error" m)).notes ≡ m.notes ++ note_of o
unfolding settle load
settle-load-notes none m h = h ∙ sym (append-nil m.notes)
settle-load-notes (some s) m h = ap (λ r. r ++ note_of (some s)) h

abbrev answer_of : Turn → Option Text
answer_of (sent o) = o
answer_of (stated o) = o

turn-marks :
    (t : Turn) (a : Article)
    → (turn t a).at_submit ≡ settle "text-error" (answer_of t) (load "error" a.at_submit)
unfolding turn
turn-marks (sent none) a = refl
turn-marks (sent (some s)) a = refl
turn-marks (stated o) a = refl

turn-notes :
    (t : Turn) (a : Article)
    → Stays a.at_submit.notes
    → (turn t a).at_submit.notes ≡ a.at_submit.notes ++ note_of (answer_of t)
turn-notes t a h =
    ap (λ (m : Marks). m.notes) (turn-marks t a) ∙ settle-load-notes (answer_of t) a.at_submit h

turn-Stays : (t : Turn) (a : Article) → Stays a.at_submit.notes → Stays (turn t a).at_submit.notes
turn-Stays t a h =
    let e = turn-notes t a h in
    ap (without "error") e
    ∙ without-append "error" a.at_submit.notes (note_of (answer_of t))
    ∙ ap (λ r. r ++ without "error" (note_of (answer_of t))) h
    ∙ ap (λ r. a.at_submit.notes ++ r) (note_of-Stays (answer_of t))
    ∙ sym e

errors_first : (t : Turn) (ts : List Turn) → errors (t ∷ ts) ≡ note_of (answer_of t) ++ errors ts
errors_first (sent o) ts = refl
errors_first (stated o) ts = refl

-- Where every request is answered before the next, each error that the server answers stays on the
-- page, behind those of all requests before it, also when a later request succeeds.
pub turns-errors :
    (ts : List Turn) (a : Article)
    → without "error" a.at_submit.notes ≡ a.at_submit.notes
    → (turns ts a).at_submit.notes ≡ a.at_submit.notes ++ errors ts
unfolding turns
turns-errors [] a h = sym (append-nil a.at_submit.notes)
turns-errors (t ∷ ts) a h =
    turns-errors ts (turn t a) (turn-Stays t a h)
    ∙ ap (λ r. r ++ errors ts) (turn-notes t a h)
    ∙ append_assoc a.at_submit.notes (note_of (answer_of t)) (errors ts)
    ∙ ap (λ r. a.at_submit.notes ++ r) (sym (errors_first t ts))
