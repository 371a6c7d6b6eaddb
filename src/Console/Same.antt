-- ===== src/Console/Same.antt =====
-- The parts of the console that the requests for older messages go by, under the other handlers.
use cmoon.Base.{
  String, ◌≡◌, refl, ap, ◌∙◌, List, [], ◌∷◌, Option, none, some, str_eq, if◌then◌else◌,
  Option-cases, inl, inr,
}
use cmoon.Chat.Render.{Message}
use cmoon.Console.{
  Console, Exit, finished, uri_error, type_error, ◌>>=◌, node_msg, ensure_user, prepend_recent,
  console_msg,
}
use cmoon.Console.Messages.{call_raws}
use cmoon.Console.Events.{on_recently}
use cmoon.Console.Sending.{node_msg_keeps}

-- The parts of the console that the requests for pages go by.
pub record IsSame (c d : Console) : Type 0 where
  pub same_name : d.aname ≡ c.aname
  pub same_page : d.users_load_page ≡ c.users_load_page
  pub same_total : d.users_total_msg ≡ c.users_total_msg
  pub same_requests : d.requests ≡ c.requests

IsSame-refl : (c : Console) → IsSame c c
IsSame-refl c = record {
  same_name = refl;
  same_page = refl;
  same_total = refl;
  same_requests = refl;
}

IsSame-trans : {b c d : Console} → IsSame b c → IsSame c d → IsSame b d
IsSame-trans u v = record {
  same_name = v.same_name ∙ u.same_name;
  same_page = v.same_page ∙ u.same_page;
  same_total = v.same_total ∙ u.same_total;
  same_requests = v.same_requests ∙ u.same_requests;
}

pub node_msg-IsSame : (n : String) (c : Console) → IsSame c (node_msg n c)
node_msg-IsSame n c =
    let k = node_msg_keeps n c in
    record {
      same_name = ap (λ (d : Console). d.aname) k;
      same_page = ap (λ (d : Console). d.users_load_page) k;
      same_total = ap (λ (d : Console). d.users_total_msg) k;
      same_requests = ap (λ (d : Console). d.requests) k;
    }

on_recently-IsSame : (m : Message) (c : Console) → IsSame c (on_recently m c).0
unfolding on_recently prepend_recent ensure_user
on_recently-IsSame m c =
    let n : String = if str_eq m.sender c.aname then m.receiver else m.sender in
    let d : Console = node_msg n (ensure_user n c) in
    let made : IsSame c d =
      let k = node_msg-IsSame n (ensure_user n c) in
      record {
        same_name = k.same_name;
        same_page = k.same_page;
        same_total = k.same_total;
        same_requests = k.same_requests;
      } in
    elim (Option-cases (console_msg d m)) [
      | inl e ↦ rw (e, on_recently) made
      | inr (html, e) ↦
          rw (e, on_recently)
            (record {
              same_name = made.same_name;
              same_page = made.same_page;
              same_total = made.same_total;
              same_requests = made.same_requests;
            })
    ]

bind-IsSame :
    (r : Console × Exit) (c : Console) (rs : List (Option Message))
    → IsSame c r.0
    → ((d : Console) → IsSame d (call_raws on_recently rs d).0)
    → IsSame c (r >>= call_raws on_recently rs).0
bind-IsSame (d, finished) c rs k rest = IsSame-trans k (rest d)
bind-IsSame (d, uri_error) c rs k rest = k
bind-IsSame (d, type_error) c rs k rest = k

pub call_raws-IsSame :
    (rs : List (Option Message)) (c : Console) → IsSame c (call_raws on_recently rs c).0
unfolding call_raws
call_raws-IsSame [] c = IsSame-refl c
call_raws-IsSame (none ∷ rs) c = call_raws-IsSame rs c
call_raws-IsSame (some m ∷ rs) c =
    bind-IsSame (on_recently m c) c rs (on_recently-IsSame m c) (call_raws-IsSame rs)
