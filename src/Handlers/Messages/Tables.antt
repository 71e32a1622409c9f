-- ===== src/Handlers/Messages/Tables.antt =====
-- internal/handlers/messages.go: the tables that `resolveDatasetSchema` makes of the rows of a data set.
use data_flow_agent_hub.Base.{
  Text, same, same→eq, eq→same, List, [], ◌∷◌, ◌++◌, append_assoc, true, false, Option, none, some,
  ◌≡◌, ◌≢◌, refl, sym, ap, ◌∙◌, Bool-cases, inl, inr,
}
use data_flow_agent_hub.Sqlrun.Run.{Answer, ok, err}
use data_flow_agent_hub.Schema.{ColumnSchema, TableSchema, SchemaResult}
use data_flow_agent_hub.Handlers.Messages.Dataset.{
  FieldRow, FieldRows, one_column, extend, next_table, closed_by, last_table, prepend, group_rows,
  end_groups, dataset_tables,
}

-- the rows that a list of tables comes from
abbrev pub rows_of : Text → List ColumnSchema → List (Answer FieldRow)
rows_of name [] = []
rows_of name (c ∷ cols) = ok (record { table = name; column = c }) ∷ rows_of name cols

abbrev pub flatten : SchemaResult → List (Answer FieldRow)
flatten [] = []
flatten (t ∷ tables) = rows_of t.name t.columns ++ flatten tables

abbrev pub OtherTable : TableSchema → SchemaResult → Type 0
OtherTable t [] = Unit
OtherTable t (u ∷ tables) = t.name ≢ u.name

-- every table has a column, and no table follows one of its name
abbrev pub Separate : SchemaResult → Type 0
Separate [] = Unit
Separate (t ∷ tables) = (t.columns ≢ []) × OtherTable t tables × Separate tables

rows_of-append :
    (name : Text) (cols rest : List ColumnSchema)
    → rows_of name (cols ++ rest) ≡ rows_of name cols ++ rows_of name rest
rows_of-append name [] rest = refl
rows_of-append name (c ∷ cols) rest =
    ap (λ rows. ok (record { table = name; column = c }) ∷ rows) (rows_of-append name cols rest)

prepend-inverse :
    (ts : SchemaResult) (a : Answer SchemaResult) (tables : SchemaResult)
    → prepend ts a ≡ ok tables
    → (rest : SchemaResult) × (a ≡ ok rest) × (tables ≡ ts ++ rest)
unfolding prepend
prepend-inverse ts (err e) tables h = cc
prepend-inverse ts (ok rest) tables h = (rest, refl, cc)

-- the tables from the current one on
record Groups (t : TableSchema) (rows : List (Answer FieldRow)) (tables : SchemaResult)
    : Type 0 where
  first : TableSchema
  rest : SchemaResult
  parts : tables ≡ first ∷ rest
  named : first.name ≡ t.name
  flat : flatten (first ∷ rest) ≡ rows_of t.name t.columns ++ rows
  separate : Separate (first ∷ rest)

append-ne-nil : {A : Type 0} (xs : List A) (x : A) → xs ++ (x ∷ []) ≢ []
append-ne-nil [] x h = cc
append-ne-nil (y ∷ xs) x h = cc

Groups-extend :
    (t : TableSchema) (r : FieldRow) (rows : List (Answer FieldRow)) (tables : SchemaResult)
    → t.name ≡ r.table
    → Groups (extend r t) rows tables
    → Groups t (ok r ∷ rows) tables
unfolding extend
Groups-extend t r rows tables e g = record {
  first = g.first;
  rest = g.rest;
  parts = g.parts;
  named = g.named;
  flat = g.flat ∙ simp (rows_of-append, append_assoc, e);
  separate = g.separate;
}

Groups-one :
    (t : TableSchema) (r : FieldRow) (rows : List (Answer FieldRow)) (tables : SchemaResult)
    → t.columns ≢ []
    → t.name ≢ r.table
    → Groups (one_column r) rows tables
    → Groups t (ok r ∷ rows) (t ∷ tables)
unfolding one_column
Groups-one t r rows tables full other g = record {
  first = t;
  rest = tables;
  parts = refl;
  named = refl;
  flat = rw g.parts (ap (λ rs. rows_of t.name t.columns ++ rs) g.flat);
  separate = rw g.parts (full, λ e. other (e ∙ g.named), g.separate);
}

next_table-same :
    (t : TableSchema) (r : FieldRow)
    → same t.name r.table ≡ true
    → (next_table (some t) r ≡ extend r t) × (closed_by (some t) r ≡ [])
unfolding next_table closed_by
next_table-same t r h = rw h (refl, refl)

next_table-other :
    (t : TableSchema) (r : FieldRow)
    → same t.name r.table ≡ false
    → (next_table (some t) r ≡ one_column r) × (closed_by (some t) r ≡ t ∷ [])
unfolding next_table closed_by
next_table-other t r h = rw h (refl, refl)

other_name : (s t : Text) → same s t ≡ false → s ≢ t
other_name s t h e = cc (h, eq→same s t e)

one_column-full : (r : FieldRow) → (one_column r).columns ≢ []
unfolding one_column
one_column-full r h = cc

extend-full : (r : FieldRow) (t : TableSchema) → (extend r t).columns ≢ []
unfolding extend
extend-full r t = append-ne-nil t.columns r.column

group_rows-Groups :
    (rows : List (Answer FieldRow)) (t : TableSchema) (tables : SchemaResult)
    → t.columns ≢ []
    → group_rows (some t) rows ≡ ok tables
    → Groups t rows tables
unfolding group_rows last_table
group_rows-Groups [] t tables full h = record {
  first = t;
  rest = [];
  parts = cc;
  named = refl;
  flat = refl;
  separate = (full, tt, tt);
}
group_rows-Groups (err e ∷ rows) t tables full h = cc
group_rows-Groups (ok r ∷ rows) t tables full h =
    let (rest, tail, parts) = prepend-inverse _ _ tables h in
    elim (Bool-cases (same t.name r.table)) [
      | inl e ↦
          let (next, closed) = next_table-same t r e in
          Groups-extend t r rows tables (same→eq t.name r.table e) (
            group_rows-Groups rows (extend r t) tables (extend-full r t) (
              ap (λ u. group_rows (some u) rows) (sym next)
              ∙ (tail ∙ ap ok (sym (parts ∙ ap (λ ts. ts ++ rest) closed)))))
      | inr e ↦
          let (next, closed) = next_table-other t r e in
          rw (parts, closed)
            (Groups-one t r rows rest full (other_name t.name r.table e) (
              group_rows-Groups rows (one_column r) rest (one_column-full r)
                (ap (λ u. group_rows (some u) rows) (sym next) ∙ tail)))
    ]

group_rows-flatten :
    (rows : List (Answer FieldRow)) (tables : SchemaResult)
    → group_rows none rows ≡ ok tables
    → (flatten tables ≡ rows) × Separate tables
unfolding group_rows last_table next_table closed_by
group_rows-flatten [] tables h = let e : [] ≡ tables = cc in rw (← e) (refl, tt)
group_rows-flatten (err e ∷ rows) tables h = cc
group_rows-flatten (ok r ∷ rows) tables h =
    let (rest, tail, parts) = prepend-inverse [] _ tables h in
    let g = group_rows-Groups rows (one_column r) rest (one_column-full r) tail in
    rw (parts, g.parts) (g.flat ∙ unfold one_column in refl, g.separate)

end_groups-inverse :
    (e : Option Text) (a : Answer SchemaResult) (tables : SchemaResult)
    → end_groups e a ≡ ok tables
    → a ≡ ok tables
unfolding end_groups
end_groups-inverse none (ok ts) tables h = h
end_groups-inverse (some e) (ok ts) tables h = cc
end_groups-inverse e (err x) tables h = cc

-- When resolveDatasetSchema gets its rows without an error, the tables that it makes, written out again
-- with the name of the table before each column, are these rows in their order; every table has a column,
-- and a table never follows one with its name.
pub dataset_tables-flatten :
    (rows : FieldRows) (tables : SchemaResult)
    → dataset_tables (ok rows) ≡ ok tables
    → (flatten tables ≡ rows.scanned) × Separate tables
unfolding dataset_tables
dataset_tables-flatten rows tables h =
    group_rows-flatten rows.scanned tables (end_groups-inverse rows.end_error _ tables h)
