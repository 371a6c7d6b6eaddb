-- ===== src/Console/Leaving.antt =====
-- Who is on line after `userOff`.
use cmoon.Base.{
  String, ◌≡◌, refl, ap, true, false, List, [], ◌∷◌, ◌++◌, some, contains, str_eq, if◌then◌else◌,
  Text, units, Bool-cases, inl, inr, eq_iff, arith,
}
use cmoon.Chat.Tags.{has}
use cmoon.Chat.Uri.{decode_uri}
use cmoon.Chat.Uri.Escapes.{decode_uri_of_plain}
use cmoon.Chat.Render.{str_msg, console_action, item, Message, no_payload}
use cmoon.Console.{Console, finished, console_msg, splice_name, remove_first, drop_last}
use cmoon.Console.Events.{user_off}
use cmoon.Chat.Own.{me_decodes}
use cmoon.Console.Sending.{undefined_decodes}

abbrev pub IsDistinct : List String → Type 0
IsDistinct [] = Unit
IsDistinct (x ∷ xs) = (contains x xs ≡ false) × IsDistinct xs

contains-remove_first :
    (n m : String) (xs : List String)
    → IsDistinct xs
    → contains m (remove_first n xs) ≡ (if str_eq m n then false else contains m xs)
unfolding remove_first
contains-remove_first n m [] d = ground arith
contains-remove_first n m (x ∷ xs) (fresh, d) = ground (
  arith,
  eq_iff x n,
  eq_iff m n,
  eq_iff x m,
  contains-remove_first n m xs d,
  ap (λ k. contains k xs),
)

drop_last-append : (xs : List String) (y : String) → drop_last (xs ++ y ∷ []) ≡ xs
unfolding drop_last
drop_last-append [] y = refl
drop_last-append (x ∷ []) y = refl
drop_last-append (x ∷ z ∷ xs) y = ap (◌∷◌ x) (drop_last-append (z ∷ xs) y)

name_renders :
    (me n : String)
    → has b'%' (units n) ≡ false
    → (t : Text) × (decode_uri (if str_eq n me then units "我" else units n) ≡ some t)
name_renders me n h = elim (Bool-cases (str_eq n me)) [
  | inl e ↦ (units "我", rw e me_decodes)
  | inr e ↦ (units n, rw e (decode_uri_of_plain (units n) h))
]

left_renders :
    (me : String) (m : Message)
    → m.kind ≡ "left"
    → m.payload ≡ no_payload
    → has b'%' (units m.sender) ≡ false
    → (h : Text) × (str_msg console_action me m ≡ some h)
unfolding str_msg console_action
left_renders me m k p h =
    let (t, e) = name_renders me m.sender h in
    (item "left" t m.tm (units "离开了本站"), rw (e, k, p, undefined_decodes) refl)

pub user_off_lem :
    (n : String) (tm : Text) (c : Console)
    → has b'%' (units n) ≡ false
    → ((user_off n tm c).1 ≡ finished) × ((user_off n tm c).0.users_on ≡ splice_name n c.users_on)
unfolding user_off console_msg
user_off_lem n tm c h =
    let m : Message = record {
      sender = n;
      receiver = "";
      kind = "left";
      tm = tm;
      payload = no_payload;
    } in
    let (t, e) = left_renders c.aname m refl refl h in ground (arith, e)

-- If no visitor is listed twice and the one who leaves is listed, then exactly that one is off line
-- afterwards (the name holds no `%`).
user_off-users_on :
    (n : String) (tm : Text) (c : Console)
    → has b'%' (units n) ≡ false
    → IsDistinct c.users_on
    → contains n c.users_on ≡ true
    → (m : String)
    → contains m (user_off n tm c).0.users_on
      ≡ (if str_eq m n then false else contains m c.users_on)
unfolding splice_name
user_off-users_on n tm c h d listed m =
    rw ((user_off_lem n tm c h).1, splice_name, listed) (contains-remove_first n m c.users_on d)

-- If the one who leaves is not listed, the visitor listed last is off line in that one's place (the
-- name holds no `%`).
user_off_of_unlisted :
    (n y : String) (tm : Text) (c : Console) (xs : List String)
    → has b'%' (units n) ≡ false
    → c.users_on ≡ xs ++ y ∷ []
    → contains n c.users_on ≡ false
    → (user_off n tm c).0.users_on ≡ xs
unfolding splice_name
user_off_of_unlisted n y tm c xs h e absent =
    rw ((user_off_lem n tm c h).1, splice_name, absent, e) (drop_last-append xs y)
