-- ===== src/Link/Presence.antt =====
-- Who is on line for the operator: the console and its connection against a plain account.
use mathlib.Core.Path.{ap₂}
use cmoon.Base.{
  subst, sym, String, ◌≡◌, refl, true, false, ◌||◌, List, [], ◌∷◌, ◌++◌, Option, str_eq, contains,
  if◌then◌else◌, Text, units, ap, ◌∙◌, arith,
}
use cmoon.Chat.Tags.{has}
use cmoon.Console.{Console, remove_first}
use cmoon.Console.Events.{dear_users, Dear, user_on}
use cmoon.Visit.{Raw}
use cmoon.Link.{Pipe, User, is_visitor, create_user, delete_user, raw_recently, raw_data}
use cmoon.Link.Keeping.{
  dear_users-Keeps, raw_data-Keeps, raw_recently-Keeps, user_off-aname, user_off-listed,
}

-- What the connection hands to the console after `onready`.
pub data Event : Type 0 where
  joined : User → Pipe → Event
  quit : User → Pipe → Text → Event
  dear : List Dear → Event
  recent : Raw → Event
  live : Raw → Event

-- The list of the visitors on line, as joins and leaves of visitors make it.
abbrev pub account : String → Event → List String → List String
account me (joined user pipe) xs = if is_visitor me user pipe then xs ++ user.uin ∷ [] else xs
account me (quit user pipe tm) xs = if is_visitor me user pipe then remove_first user.uin xs else xs
account me (dear ds) xs = xs
account me (recent raw) xs = xs
account me (live raw) xs = xs

abbrev pub accounts : String → List Event → List String → List String
accounts me [] xs = xs
accounts me (e ∷ es) xs = accounts me es (account me e xs)

-- A visitor who leaves is listed, and has no `%` in the name.
abbrev pub IsTidy : String → Event → List String → Type 0
IsTidy me (quit user pipe tm) xs =
    (has b'%' (units user.uin) ≡ false) × (contains user.uin xs ≡ true)
IsTidy me (joined user pipe) xs = Unit
IsTidy me (dear ds) xs = Unit
IsTidy me (recent raw) xs = Unit
IsTidy me (live raw) xs = Unit

abbrev pub AreTidy : String → List Event → List String → Type 0
AreTidy me [] xs = Unit
AreTidy me (e ∷ es) xs = IsTidy me e xs × AreTidy me es (account me e xs)

module _ (get_pipe : Option String → Option String) where
  unfoldable pub step : Event → Console → Console
  unfolding create_user delete_user raw_recently raw_data
  step (joined user pipe) c = create_user get_pipe user pipe c
  step (quit user pipe tm) c = (delete_user user pipe tm c).0
  step (dear ds) c = dear_users ds c
  step (recent raw) c = (raw_recently raw c).0
  step (live raw) c = (raw_data raw c).0

  unfoldable pub run : List Event → Console → Console
  unfolding step
  run [] c = c
  run (e ∷ es) c = run es (step e c)

  user_on_lem :
      (n pubid : String) (c : Console)
      → ((user_on get_pipe n pubid c).aname ≡ c.aname)
        × ((user_on get_pipe n pubid c).users_on ≡ c.users_on ++ n ∷ [])
  unfolding user_on
  user_on_lem n pubid c = (refl, refl)

  -- The console after an event, for an account of who is on line.
  Follows : Console → Event → Console → Type 0
  Follows c e d = (d.aname ≡ c.aname) × (d.users_on ≡ account c.aname e c.users_on)

  step-Follows : (e : Event) (c : Console) → IsTidy c.aname e c.users_on → Follows c e (step e c)
  unfolding step create_user delete_user Follows
  step-Follows (joined user pipe) c t = ground (arith, user_on_lem user.uin user.pubid c)
  step-Follows (quit user pipe tm) c (h, listed) =
      ground (arith, user_off-aname user.uin tm c, user_off-listed user.uin tm c h listed)
  step-Follows (dear ds) c t = dear_users-Keeps ds c
  step-Follows (recent raw) c t = raw_recently-Keeps raw c
  step-Follows (live raw) c t = raw_data-Keeps raw c

  run-Follows :
      (es : List Event) (c : Console)
      → AreTidy c.aname es c.users_on
      → (run es c).users_on ≡ accounts c.aname es c.users_on
  unfolding run Follows
  run-Follows [] c t = refl
  run-Follows (e ∷ es) c (t, ts) =
      let f = step-Follows e c t in
      let d : Console = step e c in
      let ts' : AreTidy d.aname es d.users_on =
        subst (λ me. AreTidy me es d.users_on) (sym f.0)
          (subst (λ xs. AreTidy c.aname es xs) (sym f.1) ts) in
      run-Follows es d ts' ∙ ap₂ (λ me xs. accounts me es xs) f.0 f.1

contains-append :
    (m n : String) (xs : List String) → contains m (xs ++ n ∷ []) ≡ (contains m xs || str_eq n m)
contains-append m n [] = ground arith
contains-append m n (x ∷ xs) = ground (arith, contains-append m n xs)

contains-remove_other :
    (m n : String) (xs : List String)
    → contains m xs ≡ false
    → contains m (remove_first n xs) ≡ false
unfolding remove_first
contains-remove_other m n [] h = refl
contains-remove_other m n (x ∷ xs) h = ground (arith, contains-remove_other m n xs)

account-me :
    (me : String) (e : Event) (xs : List String)
    → contains me xs ≡ false
    → contains me (account me e xs) ≡ false
account-me me (joined user pipe) xs h = ground (arith, contains-append me user.uin xs)
account-me me (quit user pipe tm) xs h = ground (arith, contains-remove_other me user.uin xs h)
account-me me (dear ds) xs h = h
account-me me (recent raw) xs h = h
account-me me (live raw) xs h = h

accounts-me :
    (me : String) (es : List Event) (xs : List String)
    → contains me xs ≡ false
    → contains me (accounts me es xs) ≡ false
accounts-me me [] xs h = h
accounts-me me (e ∷ es) xs h = accounts-me me es (account me e xs) (account-me me e xs h)

-- Where visitors who leave are listed and have no `%` in their names, and the operator is not
-- listed at first: after any joins, leaves, lists and messages, the visitors on line are those of
-- the account, in its order, and the operator is not among them.
pub run-account :
    (get_pipe : Option String → Option String) (es : List Event) (c : Console)
    → AreTidy c.aname es c.users_on
    → contains c.aname c.users_on ≡ false
    → ((run get_pipe es c).users_on ≡ accounts c.aname es c.users_on)
      × (contains c.aname (run get_pipe es c).users_on ≡ false)
run-account get_pipe es c t h =
    let e = run-Follows get_pipe es c t in
    (e, ap (contains c.aname) e ∙ accounts-me c.aname es c.users_on h)
