-- ===== src/Forms/Racing.antt =====
-- What the page of a new account shows: with each answer before the next request, and without.
use cmoon.Base.{
  subst, sym, ◌≡◌, refl, Bool, true, false, ◌&&◌, List, [], ◌∷◌, Option, none, some, length,
  if◌then◌else◌, Text, arith, Bool-cases, inl, inr,
}
use cmoon.Forms.{
  Marks, without, load, settle, Account, Answer, refused, taken, vacant, is_empty, member_check,
  on_member_check, member_add, on_member_add,
}

-- Something is typed, or a request is made and answered.
pub data Turn : Type 0 where
  typed : Text → Text → Text → Turn
  checked : Answer → Turn
  added : Bool → Bool → Bool → Text → Turn

-- Marks of a request that is over: the classes say one thing, and there is a note just for an error.
pub record IsSettled (m : Marks) : Type 0 where
  pub idle : m.loading ≡ false
  pub single : (m.success && m.error) ≡ false
  pub told : length m.notes ≡ (if m.error then 1 else 0)
  pub own : without "vres" m.notes ≡ []

settle-load-IsSettled :
    (o : Option Text) (m : Marks) → IsSettled m → IsSettled (settle "vres" o (load "vres" m))
unfolding settle load
settle-load-IsSettled none m h =
    rw h.own (record { idle = refl; single = refl; told = refl; own = refl })
settle-load-IsSettled (some s) m h =
    rw h.own (record { idle = refl; single = refl; told = refl; own = refl })

module _ (md5 : Text → Text) where
  unfoldable pub turn : Turn → Account → Account
  turn (typed n a s) p = record p { name = n; also = a; secret = s }
  turn (checked x) p = if is_empty p.name then p else on_member_check x (member_check p)
  turn (added r s n e) p =
      if r then on_member_add s n e (member_add md5 r p) else member_add md5 r p

  unfoldable pub turns : List Turn → Account → Account
  turns [] p = p
  turns (t ∷ ts) p = turns ts (turn t p)

  -- What an answer to a check is for the marks.
  abbrev verdict : Answer → Option Text
  verdict (refused s) = some s
  verdict (taken s) = some s
  verdict vacant = none

  checks :
      (x : Answer) (p : Account)
      → is_empty p.name ≡ false
      → ((on_member_check x (member_check p)).at_name
          ≡ settle "vres" (verdict x) (load "vres" p.at_name))
        × ((on_member_check x (member_check p)).at_submit ≡ p.at_submit)
  unfolding member_check on_member_check
  checks (refused s) p e = rw e (refl, refl)
  checks (taken s) p e = rw e (refl, refl)
  checks vacant p e = rw e (refl, refl)

  adds :
      (s n : Bool) (e : Text) (p : Account)
      → (let o : Option Text = if s && n then none else some e in
          let w = on_member_add s n e (member_add md5 true p) in
          (w.at_submit ≡ settle "vres" o (load "vres" p.at_submit)) × (w.at_name ≡ p.at_name))
  unfolding member_add on_member_add
  adds true true e p = (refl, refl)
  adds true false e p = (refl, refl)
  adds false n e p = (refl, refl)

  unchanged :
      (p : Account)
      → IsSettled p.at_name
      → IsSettled p.at_submit
      → IsSettled (member_add md5 false p).at_name × IsSettled (member_add md5 false p).at_submit
  unfolding member_add
  unchanged p h k = (h, k)

  turn-IsSettled :
      (t : Turn) (p : Account)
      → IsSettled p.at_name
      → IsSettled p.at_submit
      → IsSettled (turn t p).at_name × IsSettled (turn t p).at_submit
  unfolding turn
  turn-IsSettled (typed n a s) p h k = (h, k)
  turn-IsSettled (checked x) p h k = elim (Bool-cases (is_empty p.name)) [
    | inl e ↦ rw e (h, k)
    | inr e ↦
        let (f, g) = checks x p e in
        rw e (
          subst IsSettled (sym f) (settle-load-IsSettled (verdict x) p.at_name h),
          subst IsSettled (sym g) k,
        )
  ]
  turn-IsSettled (added false s n e) p h k = unchanged p h k
  turn-IsSettled (added true s n e) p h k =
      let (f, g) = adds s n e p in
      (
        subst IsSettled (sym g) h,
        subst IsSettled (sym f)
            (settle-load-IsSettled (if s && n then none else some e) p.at_submit k),
      )

  -- Where every request is answered before the next and the marks at first are those of a request that
  -- is over, they are so after any turns: neither of the two places says that something was right and
  -- wrong, and each has a note just for an error.
  pub turns-IsSettled :
      (ts : List Turn) (p : Account)
      → IsSettled p.at_name
      → IsSettled p.at_submit
      → IsSettled (turns ts p).at_name × IsSettled (turns ts p).at_submit
  unfolding turns
  turns-IsSettled [] p h k = (h, k)
  turns-IsSettled (t ∷ ts) p h k =
      let (h', k') = turn-IsSettled t p h k in turns-IsSettled ts (turn t p) h' k'

-- Two names are checked one behind the other, and then the answers come: the second name is free and
-- the first is taken. The field is marked right and wrong, whatever the names.
pub on_member_check_late :
    (n s : Text) (p : Account)
    → is_empty p.name ≡ false
    → is_empty n ≡ false
    → (let q = member_check (record (member_check p) { name = n }) in
        let w = (on_member_check (taken s) (on_member_check vacant q)).at_name in
        (w.success ≡ true) × (w.error ≡ true) × (w.loading ≡ false))
unfolding member_check on_member_check settle
on_member_check_late n s p h k = ground (arith, h, k)
