-- ===== src/Schema/Examples.antt =====
-- A database of two tables, with a system table, and limits of one table and one column.
use data_flow_agent_hub.Base.{
  Text, codes, same, lookup, put, remove, length, All, List, [], ◌∷◌, false, none, ◌≤◌, ◌≡◌, refl,
}
use data_flow_agent_hub.Sqlrun.Permissions.{is_system_table}
use data_flow_agent_hub.Sqlrun.Run.{ok}
use data_flow_agent_hub.Schema.{
  TableSchema, ColumnRow, ColumnRows, column_of, add_column, add_row, round, discover_rows,
  columns_of, to_tables, end_discovery, discover_schema,
}
use data_flow_agent_hub.Schema.Bounds.{discover_schema_bounds}

abbrev row : Text → Text → ColumnRow
row t c = record { table_name = t; column_name = c; data_type = codes "int"; nullable = codes "NO" }

abbrev rows : ColumnRows
rows = record {
  scanned =
      ok (row (codes "orders") (codes "id"))
      ∷ ok (row (codes "orders") (codes "sum"))
      ∷ ok (row (codes "runs") (codes "id"))
      ∷ ok (row (codes "stock") (codes "id"))
      ∷ [];
  end_error = none;
}

abbrev found : List TableSchema
found =
    record {
      name = codes "orders";
      columns = record { name = codes "id"; column_type = codes "int"; is_nullable = false } ∷ [];
    }
    ∷ []

discovered : discover_schema 1 1 (ok rows) ≡ ok found
unfolding discover_schema discover_rows round add_row add_column column_of columns_of to_tables
    end_discovery is_system_table same lookup put remove
discovered = refl

discover_schema_bounds_example :
    (length found ≤ 1) × All (λ t. (length t.columns ≤ 1) × (is_system_table t.name ≡ false)) found
discover_schema_bounds_example = discover_schema_bounds 1 1 (ok rows) found discovered
