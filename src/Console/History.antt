-- ===== src/Console/History.antt =====
-- The pages of older messages: which are asked for, and in which order.
use cmoon.Base.{
  ℕ, suc, ◌+◌, ◌*◌, ◌<◌, String, ◌≡◌, refl, ap, ◌∙◌, Bool, true, false, [], ◌∷◌, ◌++◌, Option, none,
  some, str_eq_self, ltb, if◌then◌else◌, put, lookup-put, Dict, Option-cases, inl, inr, arith,
}
use mathlib.Core.Path.{ap₂}
use cmoon.Chat.Render.{Message}
use cmoon.Console.{
  Console, json_msg, Exit, finished, uri_error, type_error, ◌>>=◌, node_msg, prepend_recent,
  number_at,
}
use cmoon.Console.Messages.{
  get_message, next_page, wants_page, Answer, on_messages, call_raws, note_total, count_page,
  str_msg_divide,
}
use cmoon.Console.Events.{on_recently}
use cmoon.Console.Same.{IsSame, node_msg-IsSame, call_raws-IsSame}

abbrev pub wants_at : ℕ → Option ℕ → Bool
wants_at pg none = true
wants_at pg (some total) = ltb (15 * pg) total

module _ (n : String) where
  -- What the page counters say of a visitor, and what has been requested.
  abbrev pub total_of : Console → Option ℕ
  total_of c = number_at n c.users_total_msg

  wants_same : (pg : ℕ) (c : Console) → wants_page n pg (node_msg n c) ≡ wants_page n pg c
  unfolding wants_page
  wants_same pg c = ap (λ t. wants_at pg (number_at n t)) (node_msg-IsSame n c).same_total

  asked :
      (c : Console)
      → wants_page n (next_page n c) c ≡ true
      → IsSame
          (record c { requests = c.requests ++ json_msg n c.aname (next_page n c + 1) ∷ [] })
          (get_message n c)
  unfolding get_message
  asked c h =
      rw (get_message, wants_same (next_page n c) c, h)
        (let k = node_msg-IsSame n c in
          record {
            same_name = k.same_name;
            same_page = k.same_page;
            same_total = k.same_total;
            same_requests =
                ap₂ (λ rs a. rs ++ json_msg n a (next_page n c + 1) ∷ []) k.same_requests
                  k.same_name;
          })

  pub not_asked :
      (c : Console) → wants_page n (next_page n c) c ≡ false → IsSame c (get_message n c)
  unfolding get_message
  not_asked c h = rw (get_message, wants_same (next_page n c) c, h) (node_msg-IsSame n c)

  -- A whole answer: its raws were handled, and it names a total that is not 0.
  pub record IsWhole (total : ℕ) (answer : Answer Message) (c : Console) : Type 0 where
    pub success : answer.is_success ≡ true
    pub told : answer.ntt ≡ some total
    pub handled : (call_raws on_recently answer.raws c).1 ≡ finished

  number_at-put : (v : ℕ) (d : Dict ℕ) → 0 < v → number_at n (put n v d) ≡ some v
  unfolding number_at
  number_at-put v d h = ground (arith, lookup-put n n v d, str_eq_self n)

  -- What an answer leaves, seen from the console that was waiting.
  pub record Turned (pg total : ℕ) (c d : Console) : Type 0 where
    pub turned_page : next_page n d ≡ pg
    pub turned_total : total_of d ≡ some total
    pub turned_requests : d.requests ≡ c.requests
    pub turned_name : d.aname ≡ c.aname

  counted :
      (k : ℕ) (c d : Console)
      → IsSame c d
      → Turned (next_page n c + 1) (suc k) c (count_page n (note_total n (some (suc k)) d))
  unfolding count_page next_page
  counted k c d v = record {
    turned_page =
        ground
          (arith, v.same_page, number_at-put (next_page n d + 1) d.users_load_page (omega arith));
    turned_total = number_at-put (suc k) d.users_total_msg (omega arith);
    turned_requests = v.same_requests;
    turned_name = v.same_name;
  }

  answered_with :
      (pg k : ℕ) (c : Console) (r : Console × Exit)
      → r.1 ≡ finished
      → IsSame c r.0
      → Turned
          (next_page n c + 1)
          (suc k)
          c
          (r >>= λ d. (
            count_page n
                (note_total n (some (suc k)) (prepend_recent n (str_msg_divide (pg + 1)) d)),
            finished,
          )).0
  unfolding prepend_recent
  answered_with pg k c (d, finished) e v =
      counted k c (prepend_recent n (str_msg_divide (pg + 1)) d) (record {
        same_name = v.same_name;
        same_page = v.same_page;
        same_total = v.same_total;
        same_requests = v.same_requests;
      })
  answered_with pg k c (d, uri_error) e v = absurd (ground arith)
  answered_with pg k c (d, type_error) e v = absurd (ground arith)

  pub answered :
      (pg k : ℕ) (answer : Answer Message) (c : Console)
      → IsWhole (suc k) answer c
      → Turned (next_page n c + 1) (suc k) c (on_messages on_recently n pg answer c).0
  unfolding on_messages
  answered pg k answer c w =
      rw (w.success, w.told)
        (answered_with pg k c (call_raws on_recently answer.raws c) w.handled
          (call_raws-IsSame answer.raws c))

  -- One scroll to the first message, and the answer to its request, if it made one.
  unfoldable pub turn : Answer Message → Console → Console
  turn answer c =
      if wants_page n (next_page n c) c
      then (on_messages on_recently n (next_page n c) answer (get_message n c)).0
      else get_message n c

  pub wants_lem :
      (c : Console) → wants_page n (next_page n c) c ≡ wants_at (next_page n c) (total_of c)
  unfolding wants_page
  wants_lem c = elim (Option-cases (total_of c)) [
    | inl e ↦ rw (e, wants_page) refl
    | inr (t, e) ↦ rw (e, wants_page) refl
  ]

  pub same_next : (c d : Console) → IsSame c d → next_page n d ≡ next_page n c
  unfolding next_page
  same_next c d v = ground (arith, v.same_page)

  same_wants :
      (c d : Console) → IsSame c d → wants_page n (next_page n d) d ≡ wants_page n (next_page n c) c
  same_wants c d v =
      ground (arith, wants_lem c, wants_lem d, same_next c d v, ap (number_at n) v.same_total)

  -- What a request leaves.
  pub record Asked (c d : Console) : Type 0 where
    pub asked_page : next_page n d ≡ next_page n c
    pub asked_wants : wants_page n (next_page n d) d ≡ true
    pub asked_total : total_of d ≡ total_of c
    pub asked_name : d.aname ≡ c.aname
    pub asked_requests : d.requests ≡ c.requests ++ json_msg n c.aname (next_page n c + 1) ∷ []

  pub get_message-Asked :
      (c : Console) → wants_page n (next_page n c) c ≡ true → Asked c (get_message n c)
  unfolding next_page wants_page
  get_message-Asked c h =
      let base : Console = record c {
        requests = c.requests ++ json_msg n c.aname (next_page n c + 1) ∷ [];
      } in
      let v : IsSame base (get_message n c) = asked c h in
      record {
        asked_page = same_next base (get_message n c) v;
        asked_wants = same_wants base (get_message n c) v ∙ h;
        asked_total = ap (number_at n) v.same_total;
        asked_name = v.same_name;
        asked_requests = v.same_requests;
      }

  -- Two scrolls before the first answer ask for one page twice. The two answers are counted as two
  -- pages, so that the page after it is never asked for: the next request is for the one behind.
  overlap_skips :
      (k : ℕ) (a b : Answer Message) (c : Console)
      → let p = next_page n c in
        let c₂ = get_message n (get_message n c) in
        let c₃ = (on_messages on_recently n p a c₂).0 in
        let c₄ = (on_messages on_recently n p b c₃).0 in
        wants_page n p c ≡ true
        → IsWhole (suc k) a c₂
        → IsWhole (suc k) b c₃
        → 15 * (p + 2) < suc k
        → (get_message n c₄).requests
          ≡ ((c.requests ++ json_msg n c.aname (p + 1) ∷ []) ++ json_msg n c.aname (p + 1) ∷ [])
            ++ json_msg n c.aname (p + 3) ∷ []
  overlap_skips k a b c h wa wb more =
      let c₁ = get_message n c in
      let c₂ = get_message n c₁ in
      let p = next_page n c in
      let c₃ = (on_messages on_recently n p a c₂).0 in
      let c₄ = (on_messages on_recently n p b c₃).0 in
      let v₁ = get_message-Asked c h in
      let v₂ = get_message-Asked c₁ v₁.asked_wants in
      let t₃ = answered p k a c₂ wa in
      let t₄ = answered p k b c₃ wb in
      let p₄ : next_page n c₄ ≡ p + 2 =
        omega (arith, t₃.turned_page, t₄.turned_page, v₁.asked_page, v₂.asked_page) in
      let h₄ : wants_page n (next_page n c₄) c₄ ≡ true =
        ground (arith, wants_lem c₄, p₄, t₄.turned_total) in
      let v₅ = get_message-Asked c₄ h₄ in
      ground (
        arith, v₅.asked_requests, t₄.turned_requests, t₃.turned_requests, v₂.asked_requests,
        v₁.asked_requests, p₄, v₁.asked_page, t₄.turned_name, t₃.turned_name, v₂.asked_name,
        v₁.asked_name,
      )
