-- ===== src/Search/Shown.antt =====
-- The card of a plan shows that plan.
use cmoon.Base.{
  ℕ, ◌<◌, ◌≡◌, refl, sym, subst, Bool, true, false, [], ◌∷◌, none, some, ◌==◌, if◌then◌else◌, Text,
  Exit, finished, ◌>>=◌, arith, Bool-cases, Option-cases, inl, inr,
}
use cmoon.Search.Cards.{
  Found, Card, Domain, odomain, sdate_text, put_texts, title_text, put_from, put_source, rend_card,
}

abbrev pub has_text : Text → Bool
has_text [] = false
has_text (c ∷ t) = true

-- The link to the site is that of the plan, or else that of its site, with the site's image.
pub record IsFrom (f : Found) (c : Card) : Type 0 where
  pub domain : Domain
  pub is_site : odomain f.ori ≡ some domain
  pub href : c.from_href ≡ (if has_text f.ourl then f.ourl else domain.url)
  pub title : c.from_title ≡ title_text domain
  pub img : c.from_img ≡ some domain.img

abbrev pub IsFromIf : Bool → Found → Card → Type 0
IsFromIf true f c = c.from_img ≡ none
IsFromIf false f c = IsFrom f c

pub record IsShown (f : Found) (c : Card) : Type 0 where
  pub nick : c.nick ≡ f.nick
  pub attach : c.attach ≡ f.attach
  pub start : c.saddr ≡ f.saddr
  pub finish : c.eaddr ≡ f.eaddr
  pub date : c.sdate ≡ sdate_text f.repeat f.sdate
  pub time : c.stime ≡ f.stime
  pub linked : c.plan_id ≡ f.id
  pub phone : c.phone_id ≡ f.id
  pub contact : c.contact_id ≡ f.id
  pub source : IsFromIf (f.ori == 0) f c

odomain_known : (n : ℕ) → n < 5 → (n == 0) ≡ false → (d : Domain) × (odomain n ≡ some d)
unfolding odomain
odomain_known n h e = elim (Option-cases (odomain n)) [
  | inr (d, k) ↦ (d, k)
  | inl k ↦ absurd (ground (arith, h, e, k))
]

linked_to : Text → Domain → Card → Card
linked_to u d c = record c {
  from_href = if has_text u then u else d.url;
  from_title = title_text d;
  from_img = some d.img;
}

put_from-some :
    (u : Text) (d : Domain) (c : Card) → put_from u (some d) c ≡ (linked_to u d c, finished)
unfolding linked_to
put_from-some [] d c = refl
put_from-some (u ∷ us) d c = refl

Shows : Found → Card × Exit → Type 0
Shows f r = (r.1 ≡ finished) × IsShown f r.0

closed : Found → Card × Exit → Card × Exit
closed f r = r >>= λ d. (record d { phone_id = f.id; contact_id = f.id }, finished)

of_here :
    (f : Found) (c : Card) → (f.ori == 0) ≡ true → Shows f (closed f (put_texts f c, finished))
unfolding Shows closed
of_here f c e = (
  refl,
  record {
    nick = refl;
    attach = refl;
    start = refl;
    finish = refl;
    date = refl;
    time = refl;
    linked = refl;
    phone = refl;
    contact = refl;
    source = subst (λ b. IsFromIf b f (closed f (put_texts f c, finished)).0) (sym e) refl;
  },
)

of_site :
    (f : Found) (c : Card) (d : Domain)
    → (f.ori == 0) ≡ false
    → odomain f.ori ≡ some d
    → Shows f (closed f (linked_to f.ourl d (put_texts f c), finished))
unfolding Shows closed linked_to
of_site f c d e k = (
  refl,
  record {
    nick = refl;
    attach = refl;
    start = refl;
    finish = refl;
    date = refl;
    time = refl;
    linked = refl;
    phone = refl;
    contact = refl;
    source =
        subst (λ b. IsFromIf b f (closed f (linked_to f.ourl d (put_texts f c), finished)).0)
          (sym e) (record { domain = d; is_site = k; href = refl; title = refl; img = refl });
  },
)

put_source-here : (f : Found) (c : Card) → (f.ori == 0) ≡ true → put_source f c ≡ (c, finished)
unfolding put_source
put_source-here f c e = rw e refl

put_source-site :
    (f : Found) (c : Card) (d : Domain)
    → (f.ori == 0) ≡ false
    → odomain f.ori ≡ some d
    → put_source f c ≡ (linked_to f.ourl d c, finished)
unfolding put_source
put_source-site f c d e k = rw (e, k) (put_from-some f.ourl d c)

-- From a site of the table, or from this one, nothing is thrown and the card is that of the plan.
pub rend_card-IsShown :
    (f : Found) (c : Card)
    → f.ori < 5
    → ((rend_card f c).1 ≡ finished) × IsShown f (rend_card f c).0
unfolding rend_card Shows closed
rend_card-IsShown f c h = elim (Bool-cases (f.ori == 0)) [
  | inl e ↦
      subst (λ r. Shows f (closed f r)) (sym (put_source-here f (put_texts f c) e)) (of_here f c e)
  | inr e ↦
      let (d, k) = odomain_known f.ori h e in
      subst (λ r. Shows f (closed f r)) (sym (put_source-site f (put_texts f c) d e k))
        (of_site f c d e k)
]
