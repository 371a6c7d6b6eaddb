-- ===== src/Forms/Users.antt =====
-- The operators of a site, pop/fly/js/oms/users.js and pop/fly/js/oms/edit.js.
use cmoon.Base.{
  ap, ◌∙◌, ℕ, suc, ◌≡◌, refl, Bool, true, false, not, ◌||◌, List, [], ◌∷◌, ◌++◌, Option, none, some,
  length, length-append, if◌then◌else◌, Text, text_eq, text_eq_iff, text_ne, units, arith,
}
use cmoon.Forms.{Marks, load, settle}

pub data Request : Type 0 where
  set_secy : Text → Request
  add_user : Text → Text → Text → Request
  del_user : Text → Request
  set_tune : Text → Bool → Request

-- A row of the table, with its id.
pub record Row : Type 0 where
  pub id : Text
  pub aname : Text
  pub email : Text

-- `adding` holds the name and the mail of each timer of `userAdd`.
pub record Users : Type 0 where
  pub rows : List Row
  pub aname : Text
  pub email : Text
  pub secret : Text
  pub at_secy : Marks
  pub at_submit : Marks
  pub at_tune : Marks
  pub is_overlaid : Bool
  pub adding : List (Text × Text)
  pub alerts : ℕ
  pub requests : List Request

abbrev pub user_id : Text → Text
user_id aname = units "user-" ++ aname

abbrev pub has_row : Text → List Row → Bool
has_row i [] = false
has_row i (r ∷ rs) = text_eq r.id i || has_row i rs

-- `$('#i').remove()`, of the first row with that id.
abbrev pub remove_row : Text → List Row → List Row
remove_row i [] = []
remove_row i (r ∷ rs) = if text_eq r.id i then rs else r ∷ remove_row i rs

-- The row of `_nodeUser`: its markup opens no quote before the id but closes one behind it.
abbrev pub new_row : Text → Text → Row
new_row aname email = record { id = user_id aname ++ b'"' ∷ []; aname = aname; email = email }

-- `_nodeUser`
unfoldable pub node_user : Text → Text → List Row → List Row
node_user aname email rows =
    if has_row (user_id aname) rows then rows else rows ++ new_row aname email ∷ []

-- `setSecy`, and its answer.
unfoldable pub secy_changed : Text → Users → Users
unfolding load
secy_changed id u = record u {
  at_secy = load "vres" u.at_secy;
  requests = u.requests ++ set_secy id ∷ [];
}

unfoldable pub on_secy : Option Text → Users → Users
unfolding settle
on_secy o u = record u { at_secy = settle "vres" o u.at_secy }

-- `userAdd`
unfoldable pub user_add : (Text → Text) → Bool → Users → Users
unfolding load
user_add md5 is_right u = if not is_right then u else record u {
  secret = md5 (md5 u.secret);
  at_submit = load "vres" u.at_submit;
  requests = u.requests ++ add_user u.aname u.email (md5 (md5 u.secret)) ∷ [];
}

-- The answer to `userAdd`, with the name and the mail that were sent, and its timer.
unfoldable pub on_user_add : Text → Text → Option Text → Users → Users
unfolding settle
on_user_add aname email none u = record u {
  at_submit = settle "vres" none u.at_submit;
  adding = u.adding ++ (aname, email) ∷ [];
}
on_user_add aname email (some s) u = record u { at_submit = settle "vres" (some s) u.at_submit }

unfoldable pub added : Users → Users
unfolding node_user
added u = elim u.adding [
  | [] ↦ u
  | (aname, email) ∷ rest ↦ record u {
    adding = rest;
    is_overlaid = false;
    rows = node_user aname email u.rows;
  }
]

-- `userDel`, where the question is answered with yes or no, and its answer for that name.
unfoldable pub user_del : Bool → Text → Users → Users
user_del is_confirmed aname u =
    if is_confirmed then record u { requests = u.requests ++ del_user aname ∷ [] } else u

unfoldable pub on_user_del : Text → Bool → Users → Users
on_user_del aname is_success u =
    if is_success
    then record u { rows = remove_row (user_id aname) u.rows }
    else record u { alerts = suc u.alerts }

-- `changeSet` of edit.js, and its answer.
unfoldable pub change_set : Text → Bool → Users → Users
unfolding load
change_set tune is_checked u = record u {
  at_tune = load "vres" u.at_tune;
  requests = u.requests ++ set_tune tune is_checked ∷ [];
}

unfoldable pub on_change_set : Option Text → Users → Users
unfolding settle
on_change_set o u = record u { at_tune = settle "vres" o u.at_tune }

longer : (s t : Text) → (s ++ t) ≡ s → length t ≡ 0
longer s t e = omega (arith, length-append s t, ap length e)

new_row_id : (aname : Text) → text_eq (user_id aname ++ b'"' ∷ []) (user_id aname) ≡ false
new_row_id aname =
    text_ne (user_id aname ++ b'"' ∷ []) (user_id aname)
      (λ e. absurd (omega (arith, longer (user_id aname) (b'"' ∷ []) e)))

remove_row-append :
    (i : Text) (rs qs : List Row)
    → has_row i rs ≡ false
    → remove_row i (rs ++ qs) ≡ rs ++ remove_row i qs
remove_row-append i [] qs h = refl
remove_row-append i (r ∷ rs) qs h = ground (arith, h, remove_row-append i rs qs)

-- A row of the table as it was delivered is removed when its user is deleted, and no other is, if no
-- row before it has its id.
pub on_user_del-rows :
    (aname : Text) (u : Users) (rs qs : List Row) (r : Row)
    → u.rows ≡ rs ++ r ∷ qs
    → r.id ≡ user_id aname
    → has_row (user_id aname) rs ≡ false
    → (on_user_del aname true u).rows ≡ rs ++ qs
unfolding on_user_del
on_user_del-rows aname u rs qs r e k h =
    let same = (text_eq_iff r.id (user_id aname)).1 k in
    ap (remove_row (user_id aname)) e
    ∙ remove_row-append (user_id aname) rs (r ∷ qs) h
    ∙ ap (λ x. rs ++ x) (rw same refl)

-- A user who is not in the table and is added on the page stays there when he is deleted: after the
-- timer of the addition and the answer to the deletion the row is still the last of the table.
pub on_user_del-added :
    (aname email : Text) (more : List (Text × Text)) (u : Users)
    → u.adding ≡ (aname, email) ∷ more
    → has_row (user_id aname) u.rows ≡ false
    → (on_user_del aname true (added u)).rows ≡ u.rows ++ new_row aname email ∷ []
unfolding on_user_del added node_user
on_user_del-added aname email more u a g =
    let other = new_row_id aname in
    rw (a, g)
      (remove_row-append (user_id aname) u.rows (new_row aname email ∷ []) g
        ∙ ap (λ x. u.rows ++ x) (rw other refl))
