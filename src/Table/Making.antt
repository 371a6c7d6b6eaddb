-- ===== src/Table/Making.antt =====
-- When a table is made, and what it holds.
use mathlib.Core.Path.{ap₂}
use mathlib.Core.List.{append-nil, append_assoc}
use cmoon.Base.{
  ℕ, suc, ◌+◌, ◌≡◌, refl, ap, sym, ◌∙◌, ◌↔◌, Bool, true, false, ◌&&◌, List, [], ◌∷◌, ◌++◌, Option,
  none, some, map, length, String, Text, lookup, Exit, finished, uri_error, type_error, ◌>>=◌,
  Bool-cases, inl, inr, arith,
}
use cmoon.Table.{
  Row, Cell, Column, blank, field, made, Table, Heads, add_field, add_made, add_column,
  make_spec_row, values, fill, append_row, make_rows, make_head, mntable, spec,
}

abbrev is_given : Option Text → Bool
is_given none = false
is_given (some v) = true

-- A row has what a column prints.
abbrev pub has_column : Row → Column → Bool
has_column row blank = true
has_column row (field k) = is_given (lookup k row)
has_column row (made k f) = is_given (f row).1

abbrev pub is_whole : List Column → Row → Bool
is_whole [] row = true
is_whole (c ∷ cs) row = has_column row c && is_whole cs row

abbrev pub are_whole : List Column → List Row → Bool
are_whole cs [] = true
are_whole cs (row ∷ rows) = is_whole cs row && are_whole cs rows

abbrev text_of : Option Text → Text
text_of none = []
text_of (some v) = v

-- The cells of a column, whatever the others are.
abbrev pub cells_of : Row → Column → List Cell
cells_of row blank = []
cells_of row (field k) = (some k, text_of (lookup k row)) ∷ []
cells_of row (made k f) = (f row).0 ++ (some k, text_of (f row).1) ∷ []

abbrev pub all_cells : Row → List Column → List Cell
all_cells row [] = []
all_cells row (c ∷ cs) = cells_of row c ++ all_cells row cs

abbrev pub row_cells : List Column → Row → List Cell
row_cells [] row = values row
row_cells (c ∷ cs) row = all_cells row (c ∷ cs)

-- Where a step ends by itself, what comes next does so.
then-finished :
    {A : Type 0} (p : A × Exit) (a : A) (f : A → A × Exit) → p ≡ (a, finished) → (p >>= f) ≡ f a
then-finished p a f e = ap (λ q. q >>= f) e

then-error :
    {A : Type 0} (p : A × Exit) (f : A → A × Exit) → p.1 ≡ type_error → (p >>= f).1 ≡ type_error
then-error (a, finished) f e = absurd (cc)
then-error (a, uri_error) f e = absurd (cc)
then-error (a, type_error) f e = refl

differ : ◌≡◌ {A = Exit} finished type_error → ⊥
differ e = absurd (cc)

apart : ◌≡◌ {A = Bool} true false → ⊥
apart e = absurd (cc)

add_field-given :
    (k : String) (o : Option Text) (r : List Cell)
    → is_given o ≡ true
    → add_field k o r ≡ (r ++ (some k, text_of o) ∷ [], finished)
add_field-given k none r h = absurd (cc)
add_field-given k (some v) r h = refl

add_made-given :
    (k : String) (p : List Cell × Option Text) (r : List Cell)
    → is_given p.1 ≡ true
    → add_made k p r ≡ (r ++ (p.0 ++ (some k, text_of p.1) ∷ []), finished)
add_made-given k (own, none) r h = absurd (cc)
add_made-given k (own, some v) r h = refl

add_column-cells_of :
    (row : Row) (c : Column) (r : List Cell)
    → has_column row c ≡ true
    → add_column row c r ≡ (r ++ cells_of row c, finished)
unfolding add_column
add_column-cells_of row blank r h = ap (λ q. (q, finished)) (sym (append-nil r))
add_column-cells_of row (field k) r h = add_field-given k (lookup k row) r h
add_column-cells_of row (made k f) r h = add_made-given k (f row) r h

add_field-error :
    (k : String) (o : Option Text) (r : List Cell)
    → is_given o ≡ false
    → (add_field k o r).1 ≡ type_error
add_field-error k none r h = refl
add_field-error k (some v) r h = absurd (cc)

add_made-error :
    (k : String) (p : List Cell × Option Text) (r : List Cell)
    → is_given p.1 ≡ false
    → (add_made k p r).1 ≡ type_error
add_made-error k (own, none) r h = refl
add_made-error k (own, some v) r h = absurd (cc)

add_column-error :
    (row : Row) (c : Column) (r : List Cell)
    → has_column row c ≡ false
    → (add_column row c r).1 ≡ type_error
unfolding add_column
add_column-error row blank r h = absurd (cc)
add_column-error row (field k) r h = add_field-error k (lookup k row) r h
add_column-error row (made k f) r h = add_made-error k (f row) r h

make_spec_row-all_cells :
    (row : Row) (cs : List Column) (r : List Cell)
    → is_whole cs row ≡ true
    → make_spec_row row cs r ≡ (r ++ all_cells row cs, finished)
unfolding make_spec_row
make_spec_row-all_cells row [] r h = ap (λ q. (q, finished)) (sym (append-nil r))
make_spec_row-all_cells row (c ∷ cs) r h =
    let one : has_column row c ≡ true = ground (arith, h) in
    let others : is_whole cs row ≡ true = ground (arith, h) in
    then-finished (add_column row c r) (r ++ cells_of row c) (make_spec_row row cs)
      (add_column-cells_of row c r one)
    ∙ make_spec_row-all_cells row cs (r ++ cells_of row c) others
    ∙ ap (λ q. (q, finished)) (append_assoc r (cells_of row c) (all_cells row cs))

make_spec_row-error :
    (row : Row) (cs : List Column) (r : List Cell)
    → is_whole cs row ≡ false
    → (make_spec_row row cs r).1 ≡ type_error
unfolding make_spec_row
make_spec_row-error row [] r h = absurd (cc)
make_spec_row-error row (c ∷ cs) r h = elim (Bool-cases (has_column row c)) [
  | inl e ↦
      let others : is_whole cs row ≡ false = ground (arith, h, e) in
      ap (λ q. q.1)
        (then-finished (add_column row c r) (r ++ cells_of row c) (make_spec_row row cs)
          (add_column-cells_of row c r e))
      ∙ make_spec_row-error row cs (r ++ cells_of row c) others
  | inr e ↦ then-error (add_column row c r) (make_spec_row row cs) (add_column-error row c r e)
]

fill-row_cells :
    (cs : List Column) (row : Row)
    → is_whole cs row ≡ true
    → fill cs row ≡ (row_cells cs row, finished)
unfolding fill
fill-row_cells [] row h = refl
fill-row_cells (c ∷ cs) row h = make_spec_row-all_cells row (c ∷ cs) [] h

fill-error : (cs : List Column) (row : Row) → is_whole cs row ≡ false → (fill cs row).1 ≡ type_error
unfolding fill
fill-error [] row h = absurd (cc)
fill-error (c ∷ cs) row h = make_spec_row-error row (c ∷ cs) [] h

append_row-exit : (p : List Cell × Exit) (t : Table) → (append_row p t).1 ≡ p.1
append_row-exit (r, e) t = refl

-- A table with further rows.
abbrev pub with_rows : List Row → Table → Table
with_rows rows t = record t {
  rown = t.rown + length rows;
  tbody = t.tbody ++ map (row_cells t.rowspec) rows;
}

ended :
    (t : Table) (m n : ℕ) (b c : List (List Cell))
    → m ≡ n
    → b ≡ c
    → ◌≡◌ {A = Table × Exit}
        (record t { rown = m; tbody = b }, finished)
        (record t { rown = n; tbody = c }, finished)
ended t m n b c e g = ap₂ (λ x y. (record t { rown = x; tbody = y }, finished)) e g

make_rows-with_rows :
    (rows : List Row) (t : Table)
    → are_whole t.rowspec rows ≡ true
    → make_rows rows t ≡ (with_rows rows t, finished)
unfolding make_rows
make_rows-with_rows [] t h =
    ended t t.rown (t.rown + 0) t.tbody (t.tbody ++ []) (omega arith) (sym (append-nil t.tbody))
make_rows-with_rows (row ∷ rows) t h =
    let one : is_whole t.rowspec row ≡ true = ground (arith, h) in
    let others : are_whole t.rowspec rows ≡ true = ground (arith, h) in
    let u : Table = record t {
      rown = suc t.rown;
      tbody = t.tbody ++ row_cells t.rowspec row ∷ [];
    } in
    then-finished (append_row (fill t.rowspec row) t) u (make_rows rows)
      (ap (λ p. append_row p t) (fill-row_cells t.rowspec row one))
    ∙ make_rows-with_rows rows u others
    ∙ ended t (suc t.rown + length rows) (t.rown + suc (length rows))
        ((t.tbody ++ row_cells t.rowspec row ∷ []) ++ map (row_cells t.rowspec) rows)
        (t.tbody ++ row_cells t.rowspec row ∷ map (row_cells t.rowspec) rows) (omega arith)
        (append_assoc t.tbody (row_cells t.rowspec row ∷ []) (map (row_cells t.rowspec) rows))

make_rows-error :
    (rows : List Row) (t : Table)
    → are_whole t.rowspec rows ≡ false
    → (make_rows rows t).1 ≡ type_error
unfolding make_rows
make_rows-error [] t h = absurd (cc)
make_rows-error (row ∷ rows) t h = elim (Bool-cases (is_whole t.rowspec row)) [
  | inl e ↦
      let others : are_whole t.rowspec rows ≡ false = ground (arith, h, e) in
      let u : Table = record t {
        rown = suc t.rown;
        tbody = t.tbody ++ row_cells t.rowspec row ∷ [];
      } in
      ap (λ q. q.1)
        (then-finished (append_row (fill t.rowspec row) t) u (make_rows rows)
          (ap (λ p. append_row p t) (fill-row_cells t.rowspec row e)))
      ∙ make_rows-error rows u others
  | inr e ↦
      then-error (append_row (fill t.rowspec row) t) (make_rows rows)
        (append_row-exit (fill t.rowspec row) t ∙ fill-error t.rowspec row e)
]

-- `mntable` returns a table exactly if every row has a value for each column and every function of a
-- column returns something.
pub mntable-finished_iff :
    (heads : Heads) (rows : List Row)
    → ((mntable heads rows).1 ≡ finished) ↔ (are_whole (spec heads) rows ≡ true)
unfolding mntable make_head
mntable-finished_iff heads rows = elim (Bool-cases (are_whole (spec heads) rows)) [
  | inl e ↦ (λ _. e, λ _. ap (λ q. q.1) (make_rows-with_rows rows (make_head heads) e))
  | inr e ↦ (
    λ f. absurd (differ (sym f ∙ make_rows-error rows (make_head heads) e)),
    λ f. absurd (apart (sym f ∙ e)),
  )
]

-- The table that is returned counts its rows, and has a row of cells for each, in their order: those
-- of the columns, each by itself, or the values of the row where the heads are an array.
mntable-with_rows :
    (heads : Heads) (rows : List Row)
    → are_whole (spec heads) rows ≡ true
    → mntable heads rows ≡ (with_rows rows (make_head heads), finished)
unfolding mntable make_head
mntable-with_rows heads rows h = make_rows-with_rows rows (make_head heads) h
