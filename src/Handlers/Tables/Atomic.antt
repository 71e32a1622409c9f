-- ===== src/Handlers/Tables/Atomic.antt =====
-- internal/handlers/tables.go: what a request to create a table leaves behind, on every branch.
use data_flow_agent_hub.Base.{
  ℕ, suc, ◌+◌, ◌==◌, ltb, Text, same, trim_space, to_upper, lookup, length, List, [], ◌∷◌, ◌++◌,
  not, ◌&&◌, ◌||◌, Option, none, some, ◌≡◌, refl, if_cases, arith, codes, true, false, is_positive,
}
use data_flow_agent_hub.Sqlrun.Run.{Answer, ok, err}
use data_flow_agent_hub.Mysqlmgr.Ddl.{
  FieldDef, FieldError, validate_fields, DdlError, create_table, create_checked, exec_on, sent,
  build_create_table_sql,
}
use data_flow_agent_hub.Handlers.Users.{Claims}
use data_flow_agent_hub.Handlers.DataSql.{Catalog, has_dataset_access, not_deleted}
use data_flow_agent_hub.Handlers.Tables.Rows.{
  TableField, Store, Backend, NewTable, Replied, refused, tables_listed, table_shown, fields_listed,
  table_created, table_deleted, refused_caller, user_of,
}
use data_flow_agent_hub.Handlers.Tables.Create.{
  count_names, new_row, field_row, add_field, field_rows, commit, write_metadata, after_create,
  create_valid, create_named, create_body, create_dataset_table,
}

-- The rows of the fields of a table, numbered from a position on.
abbrev pub Describes : Text → ℕ → List FieldDef → List TableField → Type 0
Describes table i [] [] = Unit
Describes table i [] (r ∷ rows) = ⊥
Describes table i (f ∷ fields) [] = ⊥
Describes table i (f ∷ fields) (r ∷ rows) =
    (r.table_id ≡ table)
    × (r.name ≡ f.name)
    × (r.field_type ≡ to_upper f.field_type)
    × (is_positive f.field_len ≡ true → r.field_length ≡ some f.field_len)
    × (is_positive f.field_len ≡ false → r.field_length ≡ none)
    × (r.is_nullable ≡ f.is_nullable)
    × (r.ordinal_position ≡ i)
    × Describes table (i + 1) fields rows

-- a table with all its fields, behind its statement
pub record IsCreated (back : Backend) (user dataset : Text) (body : NewTable) (s s' : Store)
    : Type 0 where
  pub valid : validate_fields body.fields ≡ none
  pub rows : List TableField
  pub tables :
      s'.tables
      ≡ s.tables
        ++ ((
          back.new_table,
          record {
            dataset_id = dataset;
            name = body.name;
            display_name = body.display_name;
            mysql_table_name = back.new_mysql_name;
            status = codes "active";
            created_by = user;
          },
        )
            ∷ [])
  pub fields : s'.fields ≡ s.fields ++ rows
  pub described : Describes back.new_table 1 body.fields rows
  pub statements :
      s'.statements ≡ s.statements ++ (build_create_table_sql back.new_mysql_name body.fields ∷ [])

-- all of it or none
abbrev pub Atomic : Backend → Text → Text → NewTable → Store → Replied × Store → Type 0
Atomic back user dataset body s (refused status message, s') =
    (s'.tables ≡ s.tables) × (s'.fields ≡ s.fields)
Atomic back user dataset body s (table_created id name mysql_name n, s') =
    (id ≡ back.new_table)
    × (name ≡ body.name)
    × (mysql_name ≡ back.new_mysql_name)
    × (n ≡ length body.fields)
    × IsCreated back user dataset body s s'
Atomic back user dataset body s (table_deleted, s') = ⊥
Atomic back user dataset body s (tables_listed l, s') = ⊥
Atomic back user dataset body s (fields_listed l, s') = ⊥
Atomic back user dataset body s (table_shown t r l, s') = ⊥

abbrev Rows : Backend → ℕ → List FieldDef → Option (List TableField) → Type 0
Rows back i fields none = Unit
Rows back i fields (some rows) = Describes back.new_table (i + 1) fields rows

add_field-Rows :
    (back : Backend) (i : ℕ) (f : FieldDef) (fields : List FieldDef)
    (rest : Option (List TableField))
    → Rows back (suc i) fields rest
    → Rows back i (f ∷ fields) (add_field (field_row back i f) rest)
unfolding add_field field_row
add_field-Rows back i f fields none h = tt
add_field-Rows back i f fields (some rows) h = (
  refl,
  refl,
  refl,
  (λ p. rw p refl),
  (λ p. rw p refl),
  refl,
  refl,
  let e : i + 1 + 1 ≡ suc i + 1 = omega arith in rw e h,
)

field_rows-Rows :
    (back : Backend) (i : ℕ) (fields : List FieldDef)
    → Rows back i fields (field_rows back i fields)
unfolding field_rows
field_rows-Rows back i [] = tt
field_rows-Rows back i (f ∷ fields) =
    if_cases (Rows back i (f ∷ fields)) (back.field_fails i) _ _ (λ fails. tt)
      (λ works. add_field-Rows back i f fields _ (field_rows-Rows back (suc i) fields))

-- what `mgr.CreateTable` has sent where it reports no error
abbrev Made : Backend → List FieldDef → List Text → Option DdlError × List Text → Type 0
Made back fields log (none, statements) =
    (validate_fields fields ≡ none)
    × (statements ≡ log ++ (build_create_table_sql back.new_mysql_name fields ∷ []))
Made back fields log (some e, statements) = Unit

exec_on-Made :
    (back : Backend) (fields : List FieldDef) (log : List Text) (pool : Answer ℕ)
    → validate_fields fields ≡ none
    → Made back fields log
        (exec_on pool back.server (build_create_table_sql back.new_mysql_name fields) log)
unfolding exec_on sent
exec_on-Made back fields log (err e) h = tt
exec_on-Made back fields log (ok p) h =
    sent-Made (back.server log (build_create_table_sql back.new_mysql_name fields))
  where
    sent-Made :
        (a : Answer Text)
        → Made back fields log
            (sent a, log ++ (build_create_table_sql back.new_mysql_name fields ∷ []))
    sent-Made (ok a) = (h, refl)
    sent-Made (err e) = tt

create_checked-Made :
    (back : Backend) (fields : List FieldDef) (log : List Text) (valid : Option FieldError)
    → validate_fields fields ≡ valid
    → Made back fields log
        (create_checked valid back.pool back.server back.new_mysql_name fields log)
unfolding create_checked
create_checked-Made back fields log (some e) h = tt
create_checked-Made back fields log none h = exec_on-Made back fields log back.pool h

create_table-Made :
    (back : Backend) (fields : List FieldDef) (log : List Text)
    → Made back fields log (create_table back.pool back.server back.new_mysql_name fields log)
unfolding create_table
create_table-Made back fields log =
    create_checked-Made back fields log (validate_fields fields) refl

module _ (back : Backend) (user dataset : Text) (body : NewTable) (s : Store) where
  abbrev IsAtomic : Replied × Store → Type 0
  IsAtomic out = Atomic back user dataset body s out

  commit-Atomic :
      (rows : Option (List TableField)) (statements : List Text)
      → Rows back 0 body.fields rows
      → validate_fields body.fields ≡ none
      → statements ≡ s.statements ++ (build_create_table_sql back.new_mysql_name body.fields ∷ [])
      → IsAtomic (commit back user dataset body rows (record s { statements = statements }))
  unfolding commit new_row
  commit-Atomic none statements d v e = (refl, refl)
  commit-Atomic (some rows) statements d v e =
      if_cases IsAtomic back.commit_fails _ _ (λ _. (refl, refl))
        (λ _. (
          refl,
          refl,
          refl,
          refl,
          record {
            valid = v;
            rows = rows;
            tables = refl;
            fields = refl;
            described = d;
            statements = e;
          },
        ))

  after_create-Atomic :
      (made : Option DdlError × List Text)
      → Made back body.fields s.statements made
      → IsAtomic (after_create back user dataset body made s)
  unfolding after_create write_metadata
  after_create-Atomic (some e, statements) m = (refl, refl)
  after_create-Atomic (none, statements) m =
      if_cases IsAtomic back.begin_fails _ _ (λ _. (refl, refl))
        (λ _.
          if_cases IsAtomic back.table_fails _ _ (λ _. (refl, refl))
            (λ _. commit-Atomic _ statements (field_rows-Rows back 0 body.fields) m.0 m.1))

  create_valid-Atomic :
      (valid : Option FieldError) → IsAtomic (create_valid back user dataset body valid s)
  unfolding create_valid
  create_valid-Atomic (some e) = (refl, refl)
  create_valid-Atomic none = after_create-Atomic _ (create_table-Made back body.fields s.statements)

  create_named-Atomic : (cat : Catalog) → IsAtomic (create_named back cat user dataset body s)
  unfolding create_named
  create_named-Atomic cat =
      if_cases IsAtomic (same body.name []) _ _ (λ _. (refl, refl))
        (λ _.
          if_cases IsAtomic (length body.fields == 0) _ _ (λ _. (refl, refl))
            (λ _.
              if_cases IsAtomic
                (back.select_fails || not (not_deleted (lookup dataset cat.datasets))) _ _
                (λ _. (refl, refl))
                (λ _.
                  if_cases IsAtomic
                    (not back.count_fails && ltb 0 (count_names dataset body.name s.tables)) _ _
                    (λ _. (refl, refl)) (λ _. create_valid-Atomic (validate_fields body.fields)))))

-- For any caller, body and answers of the databases, CreateDatasetTable either refuses, and the tables
-- and fields are as before; or it replies with the identifier, the trimmed name and the name in
-- MySQL of the table and the number of its fields. Then there are one new row for the table, which
-- is of the data set, active, with these names, the display name of the body and the caller, and
-- one new row for each field in order, numbered from 1, with its name, its type in upper case, its
-- length if that is positive, and whether it may be NULL; the fields are valid, and the statement
-- for the same fields is the only one that the database of the data set has got.
pub create_dataset_table-Atomic :
    (back : Backend) (claims : Option Claims) (cat : Catalog) (dataset : Text) (body : NewTable)
    (s : Store)
    → Atomic back
        (user_of claims).0
        dataset
        (record body { name = trim_space body.name })
        s
        (create_dataset_table back claims cat dataset (some body) s)
unfolding create_dataset_table create_body
create_dataset_table-Atomic back claims cat dataset body s =
    let body' : NewTable = record body { name = trim_space body.name } in
    if_cases (IsAtomic back (user_of claims).0 dataset body' s) (refused_caller claims) _ _
      (λ _. (refl, refl))
      (λ _.
        if_cases (IsAtomic back (user_of claims).0 dataset body' s) (same dataset []) _ _
          (λ _. (refl, refl))
          (λ _.
            if_cases (IsAtomic back (user_of claims).0 dataset body' s)
              (not (has_dataset_access cat (user_of claims).0 dataset (user_of claims).1)) _ _
              (λ _. (refl, refl))
              (λ _. create_named-Atomic back (user_of claims).0 dataset body' s cat)))
