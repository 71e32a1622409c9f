-- ===== src/Schema.antt =====
-- internal/schema: the tables and columns that are told to the model (discovery.go), and their cache
-- (cache.go). What the database, Redis and `encoding/json` answer is a parameter. A limit that is zero
-- or negative is 0, with which the comparisons agree.
pub mod Bounds
pub mod Examples
use data_flow_agent_hub.Base.{
  ℕ, Text, codes, same, lookup, put, length, leb, List, [], ◌∷◌, ◌++◌, Bool, Option, none, some,
  if◌then◌else◌,
}
use data_flow_agent_hub.Sqlrun.Permissions.{is_system_table}
use data_flow_agent_hub.Sqlrun.Run.{Answer, ok, err}

-- `ColumnSchema`, `TableSchema` and `SchemaResult`
pub record ColumnSchema : Type 0 where
  pub name : Text
  pub column_type : Text
  pub is_nullable : Bool

pub record TableSchema : Type 0 where
  pub name : Text
  pub columns : List ColumnSchema

abbrev pub SchemaResult : Type 0
SchemaResult = List TableSchema

-- a row of `information_schema.columns`
pub record ColumnRow : Type 0 where
  pub table_name : Text
  pub column_name : Text
  pub data_type : Text
  pub nullable : Text

-- `tableMap` and `tableOrder`
pub record Found : Type 0 where
  pub table_map : List (Text × List ColumnSchema)
  pub table_order : List Text

unfoldable pub column_of : ColumnRow → ColumnSchema
column_of r = record {
  name = r.column_name;
  column_type = r.data_type;
  is_nullable = same r.nullable (codes "YES");
}

-- the end of a round, for a table that is listed
unfoldable pub add_column : ℕ → ColumnRow → List ColumnSchema → Found → Found
add_column max_cols r cols s =
    if leb max_cols (length cols)
    then s
    else record s { table_map = put r.table_name (cols ++ (column_of r ∷ [])) s.table_map }

-- a round for a table that is not a system table; `none` is the `break`
unfoldable pub add_row : ℕ → ℕ → ColumnRow → Option (List ColumnSchema) → Found → Option Found
add_row max_tables max_cols r (some cols) s = some (add_column max_cols r cols s)
add_row max_tables max_cols r none s =
    if leb max_tables (length s.table_order)
    then none
    else some
        (add_column max_cols r [] (record s { table_order = s.table_order ++ (r.table_name ∷ []) }))

unfoldable pub round : ℕ → ℕ → ColumnRow → Found → Option Found
round max_tables max_cols r s =
    if is_system_table r.table_name
    then some s
    else add_row max_tables max_cols r (lookup r.table_name s.table_map) s

-- `rows.Err()`, which is the error of the iteration once `rows.Next()` has ended the loop
unfoldable pub end_rows : Option Text → Found → Answer Found
end_rows none s = ok s
end_rows (some e) s = err e

-- the loop over `rows.Next()`; behind the `break`, `rows.Err()` is nil
unfoldable pub discover_rows : ℕ → ℕ → Option Text → List (Answer ColumnRow) → Found → Answer Found
discover_rows max_tables max_cols end_error [] s = end_rows end_error s
discover_rows max_tables max_cols end_error (err e ∷ rows) s = err e
discover_rows max_tables max_cols end_error (ok r ∷ rows) s = elim (round max_tables max_cols r s) [
  | none ↦ ok s
  | some s' ↦ discover_rows max_tables max_cols end_error rows s'
]

unfoldable pub columns_of : Option (List ColumnSchema) → List ColumnSchema
columns_of none = []
columns_of (some cols) = cols

unfoldable pub to_tables : List (Text × List ColumnSchema) → List Text → SchemaResult
to_tables table_map [] = []
to_tables table_map (t ∷ order) =
    record { name = t; columns = columns_of (lookup t table_map) } ∷ to_tables table_map order

-- the result
unfoldable pub end_discovery : Answer Found → Answer SchemaResult
end_discovery (err x) = err x
end_discovery (ok s) = ok (to_tables s.table_map s.table_order)

-- what the query gives: its rows, and the error of the iteration
pub record ColumnRows : Type 0 where
  pub scanned : List (Answer ColumnRow)
  pub end_error : Option Text

abbrev pub nothing_found : Found
nothing_found = record { table_map = []; table_order = [] }

-- `DiscoverSchema`
unfoldable pub discover_schema : ℕ → ℕ → Answer ColumnRows → Answer SchemaResult
discover_schema max_tables max_cols (err e) = err e
discover_schema max_tables max_cols (ok rows) =
    end_discovery (discover_rows max_tables max_cols rows.end_error rows.scanned nothing_found)

-- `cacheKey`
unfoldable pub cache_key : Text → Text → Text
cache_key workspace source = codes "schema:" ++ (workspace ++ (codes ":" ++ source))

-- Redis as the values that are not expired; `Get` and `Set` may fail
pub record Cache : Type 0 where
  pub values : List (Text × Text)
  pub get_fails : Bool
  pub set_fails : Bool

-- `json.Unmarshal` and `ToJSON`
pub record Json : Type 0 where
  pub unmarshal : Text → Option SchemaResult
  pub to_json : SchemaResult → Option Text

unfoldable pub cached_value : Text → Cache → Option Text
cached_value key cache = if cache.get_fails then none else lookup key cache.values

unfoldable pub parsed : Json → Option Text → Option SchemaResult
parsed json none = none
parsed json (some value) = json.unmarshal value

unfoldable pub store : Text → Option Text → Cache → Cache
store key none cache = cache
store key (some value) cache =
    if cache.set_fails then cache else record cache { values = put key value cache.values }

unfoldable pub store_found : Json → Text → Answer SchemaResult → Cache → Answer SchemaResult × Cache
store_found json key (err e) cache = (err e, cache)
store_found json key (ok sr) cache = (ok sr, store key (json.to_json sr) cache)

unfoldable pub cached_or_found :
    Json → Text → Option SchemaResult → Answer SchemaResult → Cache → Answer SchemaResult × Cache
cached_or_found json key (some sr) found cache = (ok sr, cache)
cached_or_found json key none found cache = store_found json key found cache

-- `CachedSchema`, by what `DiscoverSchema` gives
unfoldable pub cached_schema :
    Json → Text → Text → Answer SchemaResult → Cache → Answer SchemaResult × Cache
cached_schema json workspace source found cache =
    let key = cache_key workspace source in
    cached_or_found json key (parsed json (cached_value key cache)) found cache
