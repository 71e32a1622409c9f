-- ===== src/Handlers/DataSql.antt =====
-- internal/handlers/data.go: SQL files and the SQL terminal, with the access check of
-- internal/handlers/datasets.go. The pools are parameters. A row lists its columns, which
-- Go ranges over in an order of its own choice.
pub mod Parse
pub mod Terminal
pub mod Safety
pub mod Counts
pub mod Shown
pub mod Comments
pub mod Statements
pub mod Examples
use data_flow_agent_hub.Base.{
  ℕ, suc, ◌+◌, Text, codes, same, trim_space, to_upper, to_lower, contains, decimal, lookup, length,
  take, ltb, ◌==◌, List, [], ◌∷◌, ◌++◌, Bool, true, false, not, ◌&&◌, ◌||◌, Option, none, some,
  if◌then◌else◌,
}
use data_flow_agent_hub.Rbac.{super_admin}
use data_flow_agent_hub.Sqlrun.Classify.{
  SqlType, select, insert, update, delete, create_table, create_db, drop_sql, alter, truncate,
  unknown, classify_sql,
}
use data_flow_agent_hub.Sqlrun.Permissions.{is_allowed_for_role}
use data_flow_agent_hub.Sqlrun.Run.{
  Answer, ok, err, Outcome, done, fail, Failure, Call, query, Pool, Row, Rows, query_rows,
  execute_write,
}
use data_flow_agent_hub.Handlers.Users.{Claims}
use data_flow_agent_hub.Handlers.DataSql.Parse.{parse_sql}

-- why a statement of a file is refused, or failed
pub data StatementError : Type 0 where
  select_not_allowed : StatementError
  dangerous unsupported : SqlType → StatementError
  not_executed : Failure → StatementError

-- `validateSQLStatement`
unfoldable pub validate_type : SqlType → Option StatementError
validate_type select = some select_not_allowed
validate_type drop_sql = some (dangerous drop_sql)
validate_type alter = some (dangerous alter)
validate_type truncate = some (dangerous truncate)
validate_type delete = some (dangerous delete)
validate_type insert = none
validate_type update = none
validate_type create_table = some (unsupported create_table)
validate_type create_db = some (unsupported create_db)
validate_type unknown = some (unsupported unknown)

unfoldable pub validate_sql_statement : Text → Option StatementError
validate_sql_statement stmt = validate_type (classify_sql stmt)

-- `sqlFileResult`; an error carries the number of its statement
pub record SqlFileResult : Type 0 where
  pub is_ok : Bool
  pub rows_affected : ℕ
  pub total_stmts : ℕ
  pub succeeded : ℕ
  pub failed : ℕ
  pub errors : List (ℕ × StatementError)

unfoldable pub file_failed : ℕ → StatementError → SqlFileResult → SqlFileResult
file_failed i e r = record r { failed = r.failed + 1; errors = r.errors ++ ((i + 1, e) ∷ []) }

unfoldable pub file_outcome : ℕ → Outcome ℕ → SqlFileResult → SqlFileResult
file_outcome i (fail e) r = file_failed i (not_executed e) r
file_outcome i (done affected) r = record r {
  rows_affected = r.rows_affected + affected;
  succeeded = r.succeeded + 1;
}

unfoldable pub start_result : List Text → SqlFileResult
start_result stmts = record {
  is_ok = false;
  rows_affected = 0;
  total_stmts = length stmts;
  succeeded = 0;
  failed = 0;
  errors = [];
}

unfoldable pub finish : SqlFileResult × List Call → SqlFileResult × List Call
finish (r, log) = (record r { is_ok = r.failed == 0 }, log)

module _ {V : Type 0} where
  -- one round of the loop of `executeSQLFile`
  unfoldable pub run_statement :
      Option StatementError
      → Pool V
      → ℕ
      → Text
      → SqlFileResult × List Call
      → SqlFileResult × List Call
  run_statement (some e) pool i stmt (r, log) = (file_failed i e r, log)
  run_statement none pool i stmt (r, log) =
      let (out, log') = execute_write pool stmt log in (file_outcome i out r, log')

  unfoldable pub run_statements :
      Pool V → ℕ → List Text → SqlFileResult × List Call → SqlFileResult × List Call
  run_statements pool i [] s = s
  run_statements pool i (stmt ∷ stmts) s =
      run_statements pool (suc i) stmts (run_statement (validate_sql_statement stmt) pool i stmt s)

  -- `executeSQLFile`
  unfoldable pub execute_sql_file : Pool V → Text → List Call → SqlFileResult × List Call
  execute_sql_file pool file_data log =
      let stmts = parse_sql file_data in
      finish (run_statements pool 0 stmts (start_result stmts, log))

-- `validateSQLTerminal`: the keywords of its list, and the clause that an update must hold
unfoldable pub has_where : Text → Bool
has_where sql = contains (to_upper sql) (codes "WHERE")

unfoldable pub terminal_type : SqlType → Text → Option Text
terminal_type select sql = none
terminal_type insert sql = none
terminal_type update sql =
    if has_where sql then none else some (codes "UPDATE must include a WHERE clause for safety")
terminal_type sql_type sql = some (codes "only SELECT/INSERT/UPDATE are allowed")

-- its error; its first result is the class
unfoldable pub validate_sql_terminal : Text → Option Text
validate_sql_terminal sql = terminal_type (classify_sql sql) sql

-- the rows of `datasets` and `dataset_permissions` that the checks read
pub record Dataset : Type 0 where
  pub name : Text
  pub mysql_database : Text
  pub status : Text

pub record Permission : Type 0 where
  pub dataset_id : Text
  pub user_id : Text
  pub permission_level : Text

pub record Catalog : Type 0 where
  pub datasets : List (Text × Dataset)
  pub permissions : List Permission
  pub count_fails : Bool
  pub select_fails : Bool

unfoldable pub not_deleted : Option Dataset → Bool
not_deleted none = false
not_deleted (some d) = not (same d.status (codes "deleted"))

-- the count of `hasDatasetAccess`
unfoldable pub grants_access : Catalog → Text → Text → Permission → Bool
grants_access cat dataset user p =
    same p.dataset_id dataset
    && same p.user_id user
    && not_deleted (lookup p.dataset_id cat.datasets)

unfoldable pub count_permissions : Catalog → Text → Text → List Permission → ℕ
count_permissions cat dataset user [] = 0
count_permissions cat dataset user (p ∷ rest) =
    let n = count_permissions cat dataset user rest in
    if grants_access cat dataset user p then suc n else n

-- `hasDatasetAccess`
unfoldable pub has_dataset_access : Catalog → Text → Text → Text → Bool
has_dataset_access cat user dataset role =
    if same user [] || same dataset []
    then false
    else if same role super_admin
    then true
    else not cat.count_fails && ltb 0 (count_permissions cat dataset user cat.permissions)
