-- ===== src/Spider/Plans/Reading.antt =====
-- A page of 58 is read back.
use cmoon.Base.{
  ℕ, ◌≡◌, refl, ap, Bool, true, false, [], ◌∷◌, ◌++◌, some, ◌==◌, if◌then◌else◌, Text, text_eq,
  units, arith,
}
use cmoon.Chat.Tags.{has}
use cmoon.Spider.Plans.{
  split_first, split_at, replace_space, is_full, Plan, Found58, weekdays, first_piece, second_piece,
  second_or, time_58, line_of, repeat_58, end_58, parse_node_58,
}

split_first-without : (c : ℕ) (t : Text) → has c t ≡ false → split_first c t ≡ (t, [])
split_first-without c [] h = refl
split_first-without c (d ∷ t) h =
    let rest : has c t ≡ false = ground (arith, h) in
    let one : (d == c) ≡ false = ground (arith, h) in rw (split_first-without c t rest, one) refl

split_first-at :
    (c : ℕ) (s t : Text)
    → has c s ≡ false
    → has c t ≡ false
    → split_first c (s ++ c ∷ t) ≡ (s, t ∷ [])
split_first-at c [] t h g =
    let same : (c == c) ≡ true = ground arith in rw (split_first-without c t g, same) refl
split_first-at c (d ∷ s) t h g =
    let rest : has c s ≡ false = ground (arith, h) in
    let one : (d == c) ≡ false = ground (arith, h) in rw (split_first-at c s t rest g, one) refl

replace_space-nbsp :
    (d h : Text) → has b'&' d ≡ false → replace_space (d ++ (units "&nbsp;" ++ h)) ≡ d ++ b' ' ∷ h
unfolding replace_space units
replace_space-nbsp [] h e = refl
replace_space-nbsp (c ∷ d) h e =
    let rest : has b'&' d ≡ false = ground (arith, e) in
    let one : (b'&' == c) ≡ false = ground (arith, e) in rw (one, replace_space-nbsp d h rest) refl

split_first-first : (c : ℕ) (s t : Text) → has c s ≡ false → (split_first c (s ++ c ∷ t)).0 ≡ s
split_first-first c [] t h = let same : (c == c) ≡ true = ground arith in rw same refl
split_first-first c (d ∷ s) t h =
    let rest : has c s ≡ false = ground (arith, h) in
    let one : (d == c) ≡ false = ground (arith, h) in
    rw one (ap (λ r. d ∷ r) (split_first-first c s t rest))

-- What a page of 58 says of a plan, as a reader sees it.
pub record Page58 : Type 0 where
  pub from : Text
  pub to : Text
  pub has_car : Bool
  pub via : Text
  pub day : Text
  pub hour : Text
  pub kind : Text
  pub details : Text
  pub is_weekly : Bool

-- The texts that the expressions find on it.
abbrev pub time_on : Page58 → Text
time_on p = p.day ++ (units "&nbsp;" ++ p.hour)

abbrev pub found_on : Page58 → Found58
found_on p = record {
  route = some (p.from ++ 8594 ∷ p.to);
  has_car = p.has_car;
  by = some p.via;
  at = some (time_on p);
  kind = some (p.kind ++ 10 ∷ p.details);
}

-- No text has one of the marks that part it from the next, or spaces at its ends, and the kind is the
-- one of those who drive to work exactly if the plan is a weekly one.
pub record IsReadable (trim : Text → Text) (p : Page58) : Type 0 where
  pub from_part : has 8594 p.from ≡ false
  pub to_part : has 8594 p.to ≡ false
  pub day_part : has b' ' p.day ≡ false
  pub day_mark : has b'&' p.day ≡ false
  pub hour_part : has b' ' p.hour ≡ false
  pub hour_full : is_full p.hour ≡ true
  pub kind_part : has 10 p.kind ≡ false
  pub kind_is : text_eq p.kind (units "上下班拼车") ≡ p.is_weekly
  pub from_trim : trim p.from ≡ p.from
  pub to_trim : trim p.to ≡ p.to
  pub via_trim : trim p.via ≡ p.via
  pub time_trim : trim (time_on p) ≡ time_on p
  pub kind_trim : trim p.kind ≡ p.kind

abbrev pub plan_on : Page58 → Plan
plan_on p = record {
  dad = if p.has_car then 1 else 0;
  saddr = p.from;
  eaddr = p.to;
  marks = p.via;
  repeat = if p.is_weekly then 2 else 0;
  sdate = if p.is_weekly then weekdays else p.day;
  stime = p.hour;
}

full_after : (d h : Text) → is_full (d ++ b' ' ∷ h) ≡ true
full_after [] h = refl
full_after (c ∷ d) h = refl

second_or-full : (h t : Text) → is_full h ≡ true → second_or (some h) t ≡ h
second_or-full [] t e = absurd (ground (arith, e))
second_or-full (c ∷ h) t e = refl

module _ (trim : Text → Text) (p : Page58) (h : IsReadable trim p) where
  time_58-page : time_58 trim (some (time_on p)) ≡ p.day ++ b' ' ∷ p.hour
  unfolding time_58
  time_58-page =
      rw (h.time_trim, replace_space-nbsp p.day p.hour h.day_mark, full_after p.day p.hour) refl

  repeat_58-page : repeat_58 trim (some (p.kind ++ 10 ∷ p.details)) ≡ (if p.is_weekly then 2 else 0)
  unfolding repeat_58 line_of split_at
  repeat_58-page =
      rw (split_first-first 10 p.kind p.details h.kind_part, h.kind_trim, h.kind_is) refl

  pieces-page : split_first b' ' (p.day ++ b' ' ∷ p.hour) ≡ (p.day, p.hour ∷ [])
  pieces-page = split_first-at b' ' p.day p.hour h.day_part h.hour_part

  ends-page : split_first 8594 (p.from ++ 8594 ∷ p.to) ≡ (p.from, p.to ∷ [])
  ends-page = split_first-at 8594 p.from p.to h.from_part h.to_part

  weekly-days :
      (b : Bool) (d : Text)
      → (if (if b then 2 else 0) == 2 then weekdays else d) ≡ (if b then weekdays else d)
  weekly-days true d = refl
  weekly-days false d = refl

  -- A page of 58 is read back: the plan that is made of its texts has the ends in their order, the
  -- driver's mark, the way, the hour, and the day, or the weekdays of a plan of those who drive to work;
  -- where no text has a mark that parts it from the next one, none has spaces at its ends for `trim`,
  -- and there is an hour.
  pub parse_node_58-page : parse_node_58 trim (found_on p) ≡ plan_on p
  unfolding parse_node_58 end_58 split_at first_piece second_piece
  parse_node_58-page =
      rw
        (
          time_58-page,
          repeat_58-page,
          pieces-page,
          ends-page,
          h.from_trim,
          h.to_trim,
          h.via_trim,
          second_or-full p.hour p.day h.hour_full,
          weekly-days p.is_weekly p.day,
        )
        refl
