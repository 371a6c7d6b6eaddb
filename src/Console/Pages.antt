-- ===== src/Console/Pages.antt =====
-- Scroll after scroll, with every answer before the next scroll: the pages come in order.
use mathlib.Core.List.{append-nil, append_assoc}
use cmoon.Base.{
  ℕ, zero, suc, ◌+◌, ◌*◌, ◌-◌, ◌/◌, ◌<◌, min, String, ◌≡◌, refl, sym, ap, ◌∙◌, ◌⊎◌, true, false,
  List, [], ◌∷◌, ◌++◌, none, some, length, ltb, ltb→lt, ◌≤◌, Bool-cases, inl, inr, arith,
}
use cmoon.Chat.Render.{Message}
use cmoon.Console.{Console, number_at, Request, json_msg}
use cmoon.Console.Messages.{get_message, next_page, wants_page, Answer}
use cmoon.Console.Same.{IsSame}
use cmoon.Console.History.{
  IsWhole, get_message-Asked, answered, turn, total_of, not_asked, same_next, wants_lem,
}

module _ (n : String) where
  unfoldable pub turns : List (Answer Message) → Console → Console
  turns [] c = c
  turns (a ∷ as') c = turns as' (turn n a c)

  -- Every answer to a request is whole, and names one total.
  abbrev pub AllWhole : ℕ → List (Answer Message) → Console → Type 0
  AllWhole total [] c = Unit {0}
  AllWhole total (a ∷ as') c =
      (wants_page n (next_page n c) c ≡ true → IsWhole n total a (get_message n c))
      × AllWhole total as' (turn n a c)

  -- The requests for `count` pages behind the first `done`.
  abbrev pub pages : String → ℕ → ℕ → List Request
  pages me done zero = []
  pages me done (suc count) = json_msg n me (done + 1) ∷ pages me (done + 1) count

  -- The total is known, or nothing has been loaded.
  abbrev pub Begins : ℕ → Console → Type 0
  Begins total c = (total_of n c ≡ some total) ⊎ ((total_of n c ≡ none) × (next_page n c ≡ 0))

  Begins-wants :
      (k : ℕ) (c : Console)
      → Begins (suc k) c
      → wants_page n (next_page n c) c ≡ ltb (15 * next_page n c) (suc k)
  Begins-wants k c (inl e) = ground (arith, wants_lem n c, e)
  Begins-wants k c (inr (e, p)) = ground (arith, wants_lem n c, e, p)

  turned :
      (k : ℕ) (a : Answer Message) (c : Console)
      → wants_page n (next_page n c) c ≡ true
      → IsWhole n (suc k) a (get_message n c)
      → let d = turn n a c in
        (next_page n d ≡ next_page n c + 1)
        × (total_of n d ≡ some (suc k))
        × (d.aname ≡ c.aname)
        × (d.requests ≡ c.requests ++ json_msg n c.aname (next_page n c + 1) ∷ [])
  unfolding turn
  turned k a c h w =
      let v = get_message-Asked n c h in
      let t = answered n (next_page n c) k a (get_message n c) w in
      rw (turn, h)
        (
          omega (arith, t.turned_page, v.asked_page),
          t.turned_total,
          t.turned_name ∙ v.asked_name,
          t.turned_requests ∙ v.asked_requests,
        )

  rested :
      (a : Answer Message) (c : Console)
      → wants_page n (next_page n c) c ≡ false
      → IsSame c (turn n a c)
  unfolding turn
  rested a c h = rw (turn, h) (not_asked n c h)

  one_more :
      (rs : List Request) (me : String) (p len total : ℕ)
      → p < total
      → (rs ++ json_msg n me (p + 1) ∷ []) ++ pages me (p + 1) (min len (total - (p + 1)))
        ≡ rs ++ pages me p (min (suc len) (total - p))
  one_more rs me p len total h =
      let e : min (suc len) (total - p) ≡ suc (min len (total - (p + 1))) = omega arith in
      rw (e, append_assoc) refl

  no_more : (me : String) (p len total : ℕ) → total ≤ p → pages me p (min len (total - p)) ≡ []
  no_more me p len total h = let e : min len (total - p) ≡ 0 = omega arith in rw e refl

  not_ltb : (x y : ℕ) → ltb x y ≡ false → y ≤ x
  not_ltb x y h = ground arith

  all_known :
      (k : ℕ) (c : Console)
      → Begins (suc k) c
      → suc k ≤ 15 * next_page n c
      → total_of n c ≡ some (suc k)
  all_known k c (inl e) h = e
  all_known k c (inr (e, p)) h = absurd (omega (arith, p))

  no_more_scrolls : (me : String) (p total : ℕ) → pages me p (min 0 (total - p)) ≡ []
  no_more_scrolls me p total = let e : min 0 (total - p) ≡ 0 = omega arith in rw e refl

  -- If the visitor's messages are `k + 1` and every answer says so, then as many scrolls as there
  -- are answers request the pages behind those already loaded, one after the other, each once, up
  -- to the last page of fifteen and none behind it.
  pub turns-requests :
      (k : ℕ) (as' : List (Answer Message)) (c : Console)
      → Begins (suc k) c
      → AllWhole (suc k) as' c
      → (turns as' c).requests
        ≡ c.requests
          ++ pages c.aname (next_page n c) (min (length as') ((suc k + 14) / 15 - next_page n c))
  unfolding turns
  turns-requests k [] c b w =
      rw (no_more_scrolls c.aname (next_page n c) ((suc k + 14) / 15)) (sym (append-nil c.requests))
  turns-requests k (a ∷ as') c b (w, ws) = elim (Bool-cases (wants_page n (next_page n c) c)) [
    | inl e ↦
        let (page, total, name, sent) = turned k a c e (w e) in
        let rest = turns-requests k as' (turn n a c) (inl total) ws in
        let lower : 15 * next_page n c < suc k = ltb→lt _ _ (sym (Begins-wants k c b) ∙ e) in
        rest
        ∙ rw (page, name, sent)
            (one_more c.requests c.aname (next_page n c) (length as') ((suc k + 14) / 15)
              (omega arith))
    | inr e ↦
        let v = rested a c e in
        let upper : suc k ≤ 15 * next_page n c = not_ltb _ _ (sym (Begins-wants k c b) ∙ e) in
        let known : total_of n c ≡ some (suc k) = all_known k c b upper in
        let rest =
          turns-requests k as' (turn n a c) (inl (ap (number_at n) v.same_total ∙ known)) ws in
        let past : (suc k + 14) / 15 ≤ next_page n c = omega arith in
        rest
        ∙ rw (same_next n c (turn n a c) v, v.same_name, v.same_requests)
            (ap (◌++◌ c.requests) (
              no_more c.aname (next_page n c) (length as') _ past
              ∙ sym (no_more c.aname (next_page n c) (suc (length as')) _ past)))
  ]
