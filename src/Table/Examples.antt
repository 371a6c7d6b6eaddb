-- ===== src/Table/Examples.antt =====
-- A table of two columns, one of them made by a function.
use cmoon.Base.{◌≡◌, refl, ◌↔◌, true, [], ◌∷◌, List, some, units, finished, type_error, lookup}
use cmoon.Table.{
  Row, Heads, named, label, labelled, mntable, make_head, make_rows, fill, make_spec_row, spec,
}
use cmoon.Table.Making.{are_whole, mntable-finished_iff}

abbrev two_heads : Heads
unfolding units
two_heads = named (
    ("id", label (units "ID"))
    ∷ ("_type", labelled (units "T") (λ row. ([], some (units "t"))))
    ∷ [])

abbrev two_rows : List Row
unfolding units
two_rows = (("id", units "1") ∷ []) ∷ (("id", units "2") ∷ []) ∷ []

mntable-finished_iff_example :
    ((mntable two_heads two_rows).1 ≡ finished) ↔ (are_whole (spec two_heads) two_rows ≡ true)
mntable-finished_iff_example = mntable-finished_iff two_heads two_rows

-- A row without a value throws.
without_id : (mntable two_heads ((("pid", []) ∷ []) ∷ [])).1 ≡ type_error
unfolding mntable make_head make_rows fill make_spec_row two_heads lookup
without_id = refl
