-- ===== src/Forms/Adding.antt =====
-- What the page of a new account sends when its first attempts fail.
use cmoon.Base.{ℕ, zero, suc, ◌≡◌, refl, true, false, List, [], ◌∷◌, ◌++◌, length, Text}
use cmoon.Forms.{Account, Request, add_account, member_add, on_member_add}

abbrev pub iterate : ℕ → (Text → Text) → Text → Text
iterate zero f s = s
iterate (suc n) f s = iterate n f (f s)

module _ (md5 : Text → Text) where
  abbrev pub digest : Text → Text
  digest s = md5 (md5 s)

  -- The button is pressed with fields that are right, and each time the server answers an error.
  unfoldable pub fails : List Text → Account → Account
  fails [] a = a
  fails (s ∷ es) a = fails es (on_member_add false false s (member_add md5 true a))

  -- What is sent when the button is pressed.
  abbrev sent : Account → Request
  sent a = add_account a.name a.also (digest a.secret)

  failed :
      (s : Text) (a : Account)
      → sent (on_member_add false false s (member_add md5 true a))
        ≡ add_account a.name a.also (digest (digest a.secret))
  unfolding member_add on_member_add
  failed s a = refl

  -- After any number of attempts that the server refused, the password that is sent is not the digest
  -- of what was typed but that digest taken once more for each attempt.
  member_add-fails :
      (es : List Text) (a : Account)
      → (member_add md5 true (fails es a)).requests
        ≡ (fails es a).requests
          ++ add_account a.name a.also (iterate (suc (length es)) digest a.secret) ∷ []
  unfolding fails member_add on_member_add
  member_add-fails [] a = refl
  member_add-fails (s ∷ es) a =
      member_add-fails es (on_member_add false false s (member_add md5 true a))
