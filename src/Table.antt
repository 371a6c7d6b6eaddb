-- ===== src/Table.antt =====
-- Tables of rows, lib/js/jquery.mntable.js. The text of a cell stands for its markup. `html` of the
-- client library reads where it is given `undefined`, so that what follows it there throws, as does
-- `appendTo` of `undefined`.
pub mod Making
mod Examples
use cmoon.Base.{
  ℕ, zero, suc, Bool, true, false, ◌&&◌, List, [], ◌∷◌, ◌++◌, Option, none, some, String, str_eq,
  if◌then◌else◌, Text, Dict, lookup, Exit, finished, type_error, ◌>>=◌,
}

-- An object of the answer.
abbrev pub Row : Type 0
Row = Dict Text

-- A cell with its `name`, if it has one.
abbrev pub Cell : Type 0
Cell = Option String × Text

-- The function of a column: the cells that it appends to the row itself, and what it returns.
abbrev pub Maker : Type 0
Maker = Row → List Cell × Option Text

-- A string, or an array of a string and a function.
pub data Head : Type 0 where
  label : Text → Head
  labelled : Text → Maker → Head

pub data Heads : Type 0 where
  named : List (String × Head) → Heads
  listed : List Head → Heads

-- `colspec`; the empty text is none for `type` of the utilities, and prints nothing.
pub data Column : Type 0 where
  blank : Column
  field : String → Column
  made : String → Maker → Column

pub record Table : Type 0 where
  pub rown : ℕ
  pub rowspec : List Column
  pub thead : List Text
  pub tbody : List (List Cell)

-- Nor is there a cell for an empty label.
abbrev pub head_text : Head → List Text
head_text (label []) = []
head_text (label (c ∷ t)) = (c ∷ t) ∷ []
head_text (labelled t f) = t ∷ []

abbrev pub column : String → Head → Column
column k (label t) = if str_eq k "" then blank else field k
column k (labelled t f) = made k f

abbrev pub columns : List (String × Head) → List Column
columns [] = []
columns ((k, h) ∷ hs) = column k h ∷ columns hs

abbrev pub texts : List (String × Head) → List Text
texts [] = []
texts ((k, h) ∷ hs) = head_text h ++ texts hs

abbrev pub listed_texts : List Head → List Text
listed_texts [] = []
listed_texts (h ∷ hs) = head_text h ++ listed_texts hs

-- `table.rowspec`
abbrev pub spec : Heads → List Column
spec (named hs) = columns hs
spec (listed hs) = []

abbrev pub head_texts : Heads → List Text
head_texts (named hs) = texts hs
head_texts (listed hs) = listed_texts hs

-- `makeHead`, of a table without rows.
unfoldable pub make_head : Heads → Table
make_head heads = record { rown = 0; rowspec = spec heads; thead = head_texts heads; tbody = [] }

-- The cells that a column adds to a row; it throws without a value.
abbrev pub add_field : String → Option Text → List Cell → List Cell × Exit
add_field k none tr = (tr, type_error)
add_field k (some v) tr = (tr ++ (some k, v) ∷ [], finished)

abbrev pub add_made : String → List Cell × Option Text → List Cell → List Cell × Exit
add_made k (own, none) tr = (tr ++ own, type_error)
add_made k (own, some v) tr = (tr ++ (own ++ (some k, v) ∷ []), finished)

abbrev pub add_column : Row → Column → List Cell → List Cell × Exit
unfolding lookup
add_column row blank tr = (tr, finished)
add_column row (field k) tr = add_field k (lookup k row) tr
add_column row (made k f) tr = add_made k (f row) tr

-- `makeSpecRow`
unfoldable pub make_spec_row : Row → List Column → List Cell → List Cell × Exit
unfolding add_column
make_spec_row row [] tr = (tr, finished)
make_spec_row row (c ∷ cs) tr = add_column row c tr >>= make_spec_row row cs

abbrev pub values : Row → List Cell
values [] = []
values ((k, v) ∷ row) = (none, v) ∷ values row

abbrev pub fill : List Column → Row → List Cell × Exit
unfolding make_spec_row
fill [] row = (values row, finished)
fill (c ∷ cs) row = make_spec_row row (c ∷ cs) []

-- The row is in the table before it has its cells.
abbrev pub append_row : List Cell × Exit → Table → Table × Exit
append_row (tr, e) t = (record t { rown = suc t.rown; tbody = t.tbody ++ tr ∷ [] }, e)

-- `makeRows`
unfoldable pub make_rows : List Row → Table → Table × Exit
unfolding fill
make_rows [] t = (t, finished)
make_rows (row ∷ rows) t = append_row (fill t.rowspec row) t >>= make_rows rows

-- `mntable`; a table that was thrown out of is not returned.
unfoldable pub mntable : Heads → List Row → Table × Exit
unfolding make_head make_rows
mntable heads rows = make_rows rows (make_head heads)
