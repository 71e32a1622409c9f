-- ===== src/Schema/Bounds.antt =====
-- internal/schema/discovery.go: how much of a database is discovered.
use data_flow_agent_hub.Base.{
  ℕ, ◌≤◌, Text, lookup, lookup-put, length, length-append, All, All-append, List, [], ◌∷◌, ◌++◌,
  false, Option, none, some, leb, ◌≡◌, refl, ap, suc, arith, Option-cases, inl, inr, if_cases,
}
use mathlib.Core.Path.{subst}
use data_flow_agent_hub.Sqlrun.Permissions.{is_system_table}
use data_flow_agent_hub.Sqlrun.Run.{Answer, ok, err}
use data_flow_agent_hub.Schema.{
  ColumnSchema, TableSchema, SchemaResult, ColumnRow, Found, column_of, add_column, add_row, round,
  discover_rows, end_rows, columns_of, to_tables, end_discovery, ColumnRows, nothing_found,
  discover_schema,
}

abbrev Listed : Text → Type 0
Listed t = is_system_table t ≡ false

-- the limits, and no system table
record IsWithin (max_tables max_cols : ℕ) (s : Found) : Type 0 where
  tables : length s.table_order ≤ max_tables
  columns :
      (t : Text) (cols : List ColumnSchema)
      → lookup t s.table_map ≡ some cols
      → length cols ≤ max_cols
  listed : All Listed s.table_order

abbrev Bounded : ℕ → TableSchema → Type 0
Bounded max_cols t = (length t.columns ≤ max_cols) × (is_system_table t.name ≡ false)

module _ (max_tables max_cols : ℕ) where
  -- what the rest of a round sees: nothing, or found tables within the limits
  abbrev Kept : Option Found → Type 0
  Kept none = Unit
  Kept (some s) = IsWithin max_tables max_cols s

  add_column-IsWithin :
      (r : ColumnRow) (cols : List ColumnSchema) (s : Found)
      → IsWithin max_tables max_cols s
      → IsWithin max_tables max_cols (add_column max_cols r cols s)
  unfolding add_column
  add_column-IsWithin r cols s v =
      if_cases (IsWithin max_tables max_cols) (leb max_cols (length cols)) _ _ (λ full. v)
        (λ room. record {
          tables = v.tables;
          columns = λ t cs h. ground (
            arith,
            lookup-put r.table_name t (cols ++ (column_of r ∷ [])) s.table_map,
            length-append cols (column_of r ∷ []),
            v.columns t cs,
          );
          listed = v.listed;
        })

  add_row-Kept :
      (r : ColumnRow) (found : Option (List ColumnSchema)) (s : Found)
      → is_system_table r.table_name ≡ false
      → IsWithin max_tables max_cols s
      → Kept (add_row max_tables max_cols r found s)
  unfolding add_row
  add_row-Kept r (some cols) s h v = add_column-IsWithin r cols s v
  add_row-Kept r none s h v =
      if_cases Kept (leb max_tables (length s.table_order)) _ _ (λ full. tt)
        (λ room. add_column-IsWithin r [] _ (record {
          tables = ground (arith, length-append s.table_order (r.table_name ∷ []));
          columns = v.columns;
          listed = All-append Listed s.table_order (r.table_name ∷ []) v.listed (h, tt);
        }))

  round-Kept :
      (r : ColumnRow) (s : Found)
      → IsWithin max_tables max_cols s
      → Kept (round max_tables max_cols r s)
  unfolding round
  round-Kept r s v =
      if_cases Kept (is_system_table r.table_name) _ _ (λ system. v)
        (λ own. add_row-Kept r (lookup r.table_name s.table_map) s own v)

  -- the loop ends in an error or within the limits
  abbrev Ends : Answer Found → Type 0
  Ends (ok s) = IsWithin max_tables max_cols s
  Ends (err e) = Unit

  end_rows-Ends :
      (e : Option Text) (s : Found) → IsWithin max_tables max_cols s → Ends (end_rows e s)
  unfolding end_rows
  end_rows-Ends none s v = v
  end_rows-Ends (some e) s v = tt

  discover_rows-Ends :
      (end_error : Option Text) (rows : List (Answer ColumnRow)) (s : Found)
      → IsWithin max_tables max_cols s
      → Ends (discover_rows max_tables max_cols end_error rows s)
  unfolding discover_rows
  discover_rows-Ends end_error [] s v = end_rows-Ends end_error s v
  discover_rows-Ends end_error (err e ∷ rows) s v = tt
  discover_rows-Ends end_error (ok r ∷ rows) s v =
      elim (round max_tables max_cols r s)
          as (λ o.
            Kept o
            → Ends (elim o [
              | none ↦ ok s
              | some s' ↦ discover_rows max_tables max_cols end_error rows s'
            ])) [ none ↦ λ k. v | some s' ↦ λ k. discover_rows-Ends end_error rows s' k ]
        (round-Kept r s v)

  to_tables-Bounded :
      (s : Found) (order : List Text)
      → IsWithin max_tables max_cols s
      → All Listed order
      → All (Bounded max_cols) (to_tables s.table_map order)
  unfolding to_tables columns_of
  to_tables-Bounded s [] v h = tt
  to_tables-Bounded s (t ∷ order) v h = (
    (
      elim (Option-cases (lookup t s.table_map)) [
        | inl e ↦ rw e (omega arith)
        | inr (cols, e) ↦ rw e (v.columns t cols e)
      ],
      h.0,
    ),
    to_tables-Bounded s order v h.1,
  )

  length-to_tables :
      (table_map : List (Text × List ColumnSchema)) (order : List Text)
      → length (to_tables table_map order) ≡ length order
  unfolding to_tables
  length-to_tables table_map [] = refl
  length-to_tables table_map (t ∷ order) = ap suc (length-to_tables table_map order)

  end_discovery-IsWithin :
      (found : Answer Found) (tables : SchemaResult)
      → Ends found
      → end_discovery found ≡ ok tables
      → (length tables ≤ max_tables) × All (Bounded max_cols) tables
  unfolding end_discovery
  end_discovery-IsWithin (err x) tables k h = cc
  end_discovery-IsWithin (ok s) tables k h =
      subst (λ (a : Answer SchemaResult). Held a) (h)
        (
          omega (arith, length-to_tables s.table_map s.table_order, k.tables),
          to_tables-Bounded s s.table_order k k.listed,
        )
    where
      Held : Answer SchemaResult → Type 0
      Held (ok t) = (length t ≤ max_tables) × All (Bounded max_cols) t
      Held (err x) = Unit

-- Whatever the database answers, the tables that DiscoverSchema returns are at most the limit of tables,
-- each has at most the limit of columns, and none has the name of a system table.
pub discover_schema_bounds :
    (max_tables max_cols : ℕ) (answer : Answer ColumnRows) (tables : SchemaResult)
    → discover_schema max_tables max_cols answer ≡ ok tables
    → (length tables ≤ max_tables)
      × All (λ t. (length t.columns ≤ max_cols) × (is_system_table t.name ≡ false)) tables
unfolding discover_schema
discover_schema_bounds max_tables max_cols (err e) tables h = cc
discover_schema_bounds max_tables max_cols (ok rows) tables h =
    end_discovery-IsWithin max_tables max_cols _ tables
      (discover_rows-Ends max_tables max_cols rows.end_error rows.scanned nothing_found
        (record { tables = omega arith; columns = λ t cs e. unfold lookup in cc; listed = tt }))
      h
