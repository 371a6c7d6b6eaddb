-- ===== src/Spider/Plans.antt =====
-- What `parseNode` of dida/fly/js/admin/spd/58.js, edeng.js and ganji.js makes of the texts that it finds on a
-- page. The size of a car is only logged, and left out. `trim` is the client library's. A text that is used as an expression has no unit with a meaning in it but `.`.
pub mod Reading
use cmoon.Base.{
  ℕ, zero, suc, Bool, true, false, List, [], ◌∷◌, ◌++◌, Option, none, some, get_elem?, ◌==◌, ltb,
  if◌then◌else◌, Text, text_eq, units,
}
use cmoon.Fields.{is_digit}
use cmoon.Spider.{after_prefix, matches}

-- `s.split(c)` at one unit: the first piece and the others.
abbrev pub split_first : ℕ → Text → Text × List Text
split_first c [] = ([], [])
split_first c (d ∷ s) =
    let (p, ps) = split_first c s in if d == c then ([], p ∷ ps) else (d ∷ p, ps)

unfoldable pub split_at : ℕ → Text → List Text
split_at c s = let (p, ps) = split_first c s in p ∷ ps

-- The piece at a place, empty where there is none.
abbrev pub or_empty : Option Text → Text
or_empty none = []
or_empty (some s) = s

abbrev pub is_full : Text → Bool
is_full [] = false
is_full (c ∷ s) = true

abbrev pub if_led : Option Text → Text → Text
if_led none r = r
if_led (some q) r = units " " ++ q

-- `.replace("&nbsp;", " ")`, which is the first one only.
unfoldable pub replace_space : Text → Text
unfolding units
replace_space [] = []
replace_space (c ∷ s) =
    let rest = c ∷ replace_space s in if_led (after_prefix (units "&nbsp;") (c ∷ s)) rest

-- What is sent of a plan, as far as it is read by an expression of these or made of such a text.
pub record Plan : Type 0 where
  pub dad : ℕ
  pub saddr : Text
  pub eaddr : Text
  pub marks : Text
  pub repeat : ℕ
  pub sdate : Text
  pub stime : Text

-- The matches of the expressions over a page of 58.
pub record Found58 : Type 0 where
  pub route : Option Text
  pub has_car : Bool
  pub by : Option Text
  pub at : Option Text
  pub kind : Option Text

abbrev pub default_time : Text
unfolding units
default_time = units "2011-12-31 08:00:00"

abbrev pub weekdays : Text
unfolding units
weekdays = units "1,2,3,4,5"

-- `time.split(' ')[1] ? time.split(' ')[1] : other`
abbrev pub second_or : Option Text → Text → Text
second_or none s = s
second_or (some []) s = s
second_or (some (c ∷ q)) s = c ∷ q

abbrev pub first_piece : Text → Text
unfolding split_at
first_piece t = or_empty (get_elem? (split_at b' ' t) 0)

abbrev pub second_piece : Text → Option Text
unfolding split_at
second_piece t = get_elem? (split_at b' ' t) 1

module _ (trim : Text → Text) where
  abbrev pub trimmed : Option Text → Text
  trimmed none = []
  trimmed (some s) = trim s

  abbrev pub time_58 : Option Text → Text
  unfolding replace_space
  time_58 none = default_time
  time_58 (some s) =
      if is_full (replace_space (trim s)) then replace_space (trim s) else default_time

  -- The two lines of what is said of the kind.
  abbrev pub line_of : ℕ → Option Text → Option Text
  unfolding split_at
  line_of i none = none
  line_of i (some s) = get_elem? (split_at 10 s) i

  abbrev pub repeat_58 : Option Text → ℕ
  unfolding units
  repeat_58 none = 0
  repeat_58 (some s) = if text_eq (trimmed (line_of 0 (some s))) (units "上下班拼车") then 2 else 0

  abbrev pub end_58 : ℕ → Option Text → Text
  unfolding split_at
  end_58 i none = []
  end_58 i (some s) = trimmed (get_elem? (split_at 8594 s) i)

  unfoldable pub parse_node_58 : Found58 → Plan
  parse_node_58 f =
      let r = repeat_58 f.kind in
      let t = time_58 f.at in
      record {
        dad = if f.has_car then 1 else 0;
        saddr = end_58 0 f.route;
        eaddr = end_58 1 f.route;
        marks = trimmed f.by;
        repeat = r;
        sdate = if r == 2 then weekdays else first_piece t;
        stime = second_or (second_piece t) (first_piece t);
      }

-- The matches over a page of edeng.
pub record FoundEdeng : Type 0 where
  pub is_owner : Bool
  pub days : Option Text
  pub start : Option Text
  pub finish : Option Text
  pub hour : Option Text
  pub via : Option Text

-- What is said of the days, with the number of `repeat` and the days that it stands for.
abbrev pub day_words : List (Text × (ℕ × Text))
unfolding units
day_words =
    (units "其他", (0, units "0"))
    ∷ (units "每天", (1, units "0"))
    ∷ (units "工作日", (2, weekdays))
    ∷ (units "周末节假日", (2, units "6,7"))
    ∷ []

-- The last of the words that the text is in counts.
unfoldable pub days_from : List (Text × (ℕ × Text)) → Text → ℕ × Text → ℕ × Text
days_from [] x d = d
days_from ((w, e) ∷ ws) x d = days_from ws x (if matches x w then e else d)

abbrev pub days_of : Text → ℕ × Text
unfolding days_from
days_of x = if is_full x then days_from day_words x (0, []) else (0, [])

-- `x && x[1] || other`
abbrev pub found_or : Option Text → Text → Text
found_or none s = s
found_or (some []) s = s
found_or (some (c ∷ q)) s = c ∷ q

unfoldable pub parse_node_edeng : FoundEdeng → Plan
unfolding units
parse_node_edeng f =
    let d = days_of (found_or f.days []) in
    let t = found_or f.hour default_time in
    record {
      dad = if f.is_owner then 1 else 0;
      saddr = found_or f.start [];
      eaddr = found_or f.finish [];
      marks = found_or f.via [];
      repeat = d.0;
      sdate = if d.0 == 0 then first_piece t else d.1;
      stime = second_or (second_piece t) (units "08:00:00");
    }

-- The matches over a page of ganji, with the text of its heading.
pub record FoundGanji : Type 0 where
  pub heading : Text
  pub is_owner : Bool
  pub via : Option Text
  pub day : Option Text

-- `s.match(/[^0-9]+/)[0]`
abbrev pub run_outside : Text → Text
run_outside [] = []
run_outside (c ∷ s) = let rest = run_outside s in if is_digit c then [] else c ∷ rest

unfoldable pub first_outside : Text → Option Text
first_outside [] = none
first_outside (c ∷ s) =
    let rest = first_outside s in if is_digit c then rest else some (c ∷ run_outside s)

abbrev pub or_kept : Option Text → Text → Text
or_kept none s = s
or_kept (some q) s = q

-- `s.replace(word, '')`, which is the first one only.
unfoldable pub remove_first : Text → Text → Text
remove_first w [] = []
remove_first w (c ∷ s) = let rest = c ∷ remove_first w s in or_kept (after_prefix w (c ∷ s)) rest

module _ (trim : Text → Text) where
  abbrev pub finish_ganji : Text → Text
  unfolding units
  finish_ganji q = trim (remove_first (units "-") (remove_first (units "面议") q))

  abbrev pub planned : FoundGanji → Text → Text → Text → Plan
  planned f t s e = record {
    dad = if f.is_owner then 1 else 0;
    saddr = trim s;
    eaddr = e;
    marks = trimmed trim f.via;
    repeat = 0;
    sdate = first_piece t;
    stime = second_or (second_piece t) [];
  }

  -- `none` is the exception where the finish has nothing but figures.
  abbrev pub finished : FoundGanji → Text → Text → Option Text → Option Plan
  finished f t s none = none
  finished f t s (some q) = some (planned f t s (finish_ganji q))

  unfoldable pub parse_node_ganji : FoundGanji → Option Plan
  unfolding first_outside
  parse_node_ganji f =
      let (s, ps) = split_first 8594 (trim f.heading) in
      finished f (found_or f.day default_time) s (first_outside (trimmed trim (get_elem? ps 0)))
