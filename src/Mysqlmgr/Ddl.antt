-- ===== src/Mysqlmgr/Ddl.antt =====
-- internal/mysqlmgr/ddl.go: the fields of a table, their check, and the statements that are sent.
use data_flow_agent_hub.Base.{
  ℕ, Text, codes, same, to_upper, any, ℤ, is_positive, decimal_int, List, [], ◌∷◌, ◌++◌, Bool, not,
  ◌&&◌, ◌||◌, Option, none, some, if◌then◌else◌,
}
use data_flow_agent_hub.Sqlrun.Run.{Answer, ok, err}

pub record FieldDef : Type 0 where
  pub name : Text
  pub field_type : Text
  pub field_len : ℤ
  pub is_nullable : Bool

-- `validTypes`
abbrev pub valid_types : List Text
valid_types =
    codes "VARCHAR"
    ∷ codes "INT"
    ∷ codes "BIGINT"
    ∷ codes "DECIMAL"
    ∷ codes "DATE"
    ∷ codes "DATETIME"
    ∷ codes "TEXT"
    ∷ codes "BOOLEAN"
    ∷ codes "FLOAT"
    ∷ codes "DOUBLE"
    ∷ []

-- `IsValidFieldType`
unfoldable pub is_valid_field_type : Text → Bool
is_valid_field_type t = any (λ v. same v (to_upper t)) valid_types

-- the errors of `ValidateFields`, with the name of the field
pub data FieldError : Type 0 where
  invalid_type needs_length duplicate_name : Text → FieldError

unfoldable pub lacks_length : FieldDef → Bool
lacks_length f =
    let upper = to_upper f.field_type in
    (same upper (codes "VARCHAR") || same upper (codes "DECIMAL")) && not (is_positive f.field_len)

unfoldable pub is_named : Text → List Text → Bool
is_named name names = any (λ n. same n name) names

-- one round of the loop of `ValidateFields`
unfoldable pub field_error : List Text → FieldDef → Option FieldError
field_error names f =
    if not (is_valid_field_type f.field_type)
    then some (invalid_type f.name)
    else if lacks_length f
    then some (needs_length f.name)
    else if is_named f.name names
    then some (duplicate_name f.name)
    else none

unfoldable pub or_else : Option FieldError → Option FieldError → Option FieldError
or_else (some e) rest = some e
or_else none rest = rest

unfoldable pub validate_from : List Text → List FieldDef → Option FieldError
validate_from names [] = none
validate_from names (f ∷ fields) =
    or_else (field_error names f) (validate_from (f.name ∷ names) fields)

-- `ValidateFields`: `none` is a nil error
unfoldable pub validate_fields : List FieldDef → Option FieldError
validate_fields fields = validate_from [] fields

unfoldable pub quoted : Text → Text
quoted name = codes "`" ++ (name ++ codes "`")

-- the type of a column in the statement
unfoldable pub column_type : Text → ℤ → Text
column_type upper len =
    if same upper (codes "VARCHAR")
    then codes "VARCHAR(" ++ (decimal_int len ++ codes ")")
    else if same upper (codes "DECIMAL")
    then codes "DECIMAL(" ++ (decimal_int len ++ codes ",2)")
    else if same upper (codes "BOOLEAN")
    then codes "TINYINT(1)"
    else upper

unfoldable pub column_def : FieldDef → Text
column_def f =
    quoted f.name
    ++ (codes " "
        ++ (column_type (to_upper f.field_type) f.field_len
            ++ (if f.is_nullable then [] else codes " NOT NULL")))

unfoldable pub column_defs : List FieldDef → Text
column_defs [] = []
column_defs (f ∷ []) = column_def f
column_defs (f ∷ g ∷ fields) = column_def f ++ (codes ",\n  " ++ column_defs (g ∷ fields))

-- `buildCreateTableSQL`
unfoldable pub build_create_table_sql : Text → List FieldDef → Text
build_create_table_sql table fields =
    codes "CREATE TABLE "
    ++ (quoted table
        ++ (codes " (\n  "
            ++ (column_defs fields ++ codes "\n) ENGINE=InnoDB DEFAULT CHARSET=utf8mb4")))

unfoldable pub create_database_sql : Text → Text
create_database_sql name =
    codes "CREATE DATABASE IF NOT EXISTS " ++ (quoted name ++ codes " DEFAULT CHARSET utf8mb4")

unfoldable pub drop_database_sql : Text → Text
drop_database_sql name = codes "DROP DATABASE IF EXISTS " ++ quoted name

unfoldable pub drop_table_sql : Text → Text
drop_table_sql table = codes "DROP TABLE IF EXISTS " ++ quoted table

-- what the calls of this file return
pub data DdlError : Type 0 where
  bad_fields : FieldError → DdlError
  no_pool failed : Text → DdlError

-- The databases, by what they answer to the statements sent before and to a new one. `Exec` runs on
-- the pool of a data set, or on that of the root user.
abbrev pub Server : Type 0
Server = List Text → Text → Answer Text

-- a statement on a pool that is there, or not
unfoldable pub sent : Answer Text → Option DdlError
sent (ok a) = none
sent (err e) = some (failed e)

unfoldable pub exec_on : Answer ℕ → Server → Text → List Text → Option DdlError × List Text
exec_on (err e) server sql log = (some (no_pool e), log)
exec_on (ok p) server sql log = (sent (server log sql), log ++ (sql ∷ []))

-- `CreateDatabase` and `DropDatabase`, on a new pool for the root user
unfoldable pub create_database : Answer ℕ → Server → Text → List Text → Option DdlError × List Text
create_database root server name log = exec_on root server (create_database_sql name) log

unfoldable pub drop_database : Answer ℕ → Server → Text → List Text → Option DdlError × List Text
drop_database root server name log = exec_on root server (drop_database_sql name) log

-- `CreateTable`, on the pool that `GetPool` or `Connect` gives
unfoldable pub create_checked :
    Option FieldError
    → Answer ℕ
    → Server
    → Text
    → List FieldDef
    → List Text
    → Option DdlError × List Text
create_checked (some e) pool server table fields log = (some (bad_fields e), log)
create_checked none pool server table fields log =
    exec_on pool server (build_create_table_sql table fields) log

unfoldable pub create_table :
    Answer ℕ → Server → Text → List FieldDef → List Text → Option DdlError × List Text
create_table pool server table fields log =
    create_checked (validate_fields fields) pool server table fields log

-- `DropTable`
unfoldable pub drop_table : Answer ℕ → Server → Text → List Text → Option DdlError × List Text
drop_table pool server table log = exec_on pool server (drop_table_sql table) log
