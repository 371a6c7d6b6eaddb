-- ===== src/Rock/Listing.antt =====
-- What the list of files shows.
use cmoon.Base.{
  ◌≡◌, refl, sym, ◌∙◌, ℕ, Bool, true, false, ◌&&◌, List, [], ◌∷◌, Option, none, some, Text, Exit,
  finished, uri_error, type_error, arith, subst, Bool-cases, inl, inr,
}
use cmoon.Table.{field, Row, Table, mntable, make_rows, spec}
use cmoon.Table.Making.{has_column, are_whole, mntable-finished_iff}
use cmoon.Rock.{
  Page, End, returned, thrown, json_cbk_suc, file_heads, Files, FileAnswer, show_file, put_table,
  list_files, file_opts, on_files,
}

-- No list, or one without rows.
abbrev pub IsBare : Option Table → Type 0
IsBare none = Unit
IsBare (some t) = t.tbody ≡ []

abbrev pub shown_after : Table × Exit → Option Table
shown_after (t, finished) = some t
shown_after (t, uri_error) = none
shown_after (t, type_error) = none

put_table-shown : (n : ℕ) (q : Table × Exit) (s : Files) → (put_table n q s).shown ≡ shown_after q
put_table-shown n (t, finished) s = refl
put_table-shown n (t, uri_error) s = refl
put_table-shown n (t, type_error) s = refl

never : (a b c d e f g : Bool) → ((a && (b && (c && (d && (e && (f && false)))))) && g) ≡ false
never a b c d e f g = ground arith

-- The function of the last column returns nothing.
file_heads-are_whole :
    (row : Row) (rows : List Row) → are_whole (spec file_heads) (row ∷ rows) ≡ false
unfolding file_heads
file_heads-are_whole row rows =
    never (has_column row (field "id")) (has_column row (field "pid"))
      (has_column row (field "uri")) (has_column row (field "remark"))
      (has_column row (field "uname")) (has_column row (field "intime"))
      (are_whole (spec file_heads) rows)

abbrev is_finished : Exit → Bool
is_finished finished = true
is_finished uri_error = false
is_finished type_error = false

is_finished_lem : (e : Exit) → is_finished e ≡ true → e ≡ finished
is_finished_lem finished h = refl
is_finished_lem uri_error h = absurd (cc)
is_finished_lem type_error h = absurd (cc)

apart : ◌≡◌ {A = Bool} true false → ⊥
apart e = absurd (cc)

thrown-IsBare : (q : Table × Exit) → is_finished q.1 ≡ false → IsBare (shown_after q)
thrown-IsBare (t, finished) e = absurd (cc)
thrown-IsBare (t, uri_error) e = tt
thrown-IsBare (t, type_error) e = tt

mntable-file_heads : (rows : List Row) → IsBare (shown_after (mntable file_heads rows))
unfolding mntable make_rows
mntable-file_heads [] = refl
mntable-file_heads (row ∷ rows) =
    elim (Bool-cases (is_finished (mntable file_heads (row ∷ rows)).1)) [
      | inl e ↦ absurd (
          apart (
            sym (
              (mntable-finished_iff file_heads (row ∷ rows)).0
                (is_finished_lem (mntable file_heads (row ∷ rows)).1 e))
            ∙ file_heads-are_whole row rows))
      | inr e ↦ thrown-IsBare (mntable file_heads (row ∷ rows)) e
    ]

list_files-IsBare :
    (a : FileAnswer) (q : Page × End) (s : Files) → IsBare s.shown → IsBare (list_files a q s).shown
unfolding list_files
list_files-IsBare a (p, returned true) s h =
    subst IsBare
      (sym (put_table-shown a.ttnum (mntable file_heads a.files) (record s { page = p })))
      (mntable-file_heads a.files)
list_files-IsBare a (p, returned false) s h = h
list_files-IsBare a (p, thrown) s h = h

-- The list is asked for, or an answer comes.
pub data Event : Type 0 where
  asked : ℕ → Text → Event
  answered : FileAnswer → Event

unfoldable pub step : Event → Files → Files
unfolding show_file on_files
step (asked pg pid) s = show_file pg pid s
step (answered a) s = on_files a s

unfoldable pub run : List Event → Files → Files
unfolding step
run [] s = s
run (e ∷ es) s = run es (step e s)

step-IsBare : (e : Event) (s : Files) → IsBare s.shown → IsBare (step e s).shown
unfolding step show_file on_files
step-IsBare (asked pg pid) s h = h
step-IsBare (answered a) s h = list_files-IsBare a (json_cbk_suc file_opts a.head s.page) s h

-- From a page without a row of files: whatever is asked for and answered, in any order, no row of
-- files is ever shown.
pub run-IsBare : (es : List Event) (s : Files) → IsBare s.shown → IsBare (run es s).shown
unfolding run
run-IsBare [] s h = h
run-IsBare (e ∷ es) s h = run-IsBare es (step e s) (step-IsBare e s h)
