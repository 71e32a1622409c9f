-- ===== src/Handlers/Messages/Dataset.antt =====
-- `resolveDatasetSchema` of internal/handlers/messages.go: the tables of a data set, from its rows.
use data_flow_agent_hub.Base.{
  Text, codes, same, List, [], ◌∷◌, ◌++◌, Option, none, some, if◌then◌else◌,
}
use data_flow_agent_hub.Sqlrun.Run.{Answer, ok, err}
use data_flow_agent_hub.Schema.{ColumnSchema, TableSchema, SchemaResult}

-- a row of the query: the table, and a column of it
pub record FieldRow : Type 0 where
  pub table : Text
  pub column : ColumnSchema

-- what the query gives
pub record FieldRows : Type 0 where
  pub scanned : List (Answer FieldRow)
  pub end_error : Option Text

unfoldable pub one_column : FieldRow → TableSchema
one_column r = record { name = r.table; columns = r.column ∷ [] }

unfoldable pub extend : FieldRow → TableSchema → TableSchema
extend r t = record t { columns = t.columns ++ (r.column ∷ []) }

-- `currentTable` behind a row, and the table that the row closes
unfoldable pub next_table : Option TableSchema → FieldRow → TableSchema
next_table none r = one_column r
next_table (some t) r = if same t.name r.table then extend r t else one_column r

unfoldable pub closed_by : Option TableSchema → FieldRow → SchemaResult
closed_by none r = []
closed_by (some t) r = if same t.name r.table then [] else t ∷ []

-- the table that the end of the loop closes
unfoldable pub last_table : Option TableSchema → SchemaResult
last_table none = []
last_table (some t) = t ∷ []

unfoldable pub prepend : SchemaResult → Answer SchemaResult → Answer SchemaResult
prepend tables (err e) = err e
prepend tables (ok rest) = ok (tables ++ rest)

unfoldable pub group_rows : Option TableSchema → List (Answer FieldRow) → Answer SchemaResult
group_rows current [] = ok (last_table current)
group_rows current (err e ∷ rows) = err (codes "scan dataset schema: " ++ e)
group_rows current (ok r ∷ rows) =
    prepend (closed_by current r) (group_rows (some (next_table current r)) rows)

-- `rows.Err()`
unfoldable pub end_groups : Option Text → Answer SchemaResult → Answer SchemaResult
end_groups e (err x) = err x
end_groups none (ok tables) = ok tables
end_groups (some e) (ok tables) = err (codes "iterate dataset schema: " ++ e)

unfoldable pub dataset_tables : Answer FieldRows → Answer SchemaResult
dataset_tables (err e) = err (codes "query dataset schema: " ++ e)
dataset_tables (ok rows) = end_groups rows.end_error (group_rows none rows.scanned)

-- `ToJSON`, whose `json.Marshal` is a parameter
unfoldable pub in_json : (SchemaResult → Answer Text) → Answer SchemaResult → Answer Text
in_json to_json (err e) = err e
in_json to_json (ok tables) = to_json tables

-- `resolveDatasetSchema`
unfoldable pub resolve_dataset_schema :
    (SchemaResult → Answer Text) → Answer FieldRows → Answer Text
resolve_dataset_schema to_json rows = in_json to_json (dataset_tables rows)
