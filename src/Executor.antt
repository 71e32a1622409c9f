-- ===== src/Executor.antt =====
-- internal/nl2sqlexec/executor.go: from a question to SQL, its class, the gates and the pool.
pub mod Safety
pub mod Examples
use data_flow_agent_hub.Base.{
  ℕ, Text, trim_space, List, [], ◌∷◌, Bool, true, false, Option, none, some,
}
use data_flow_agent_hub.Sqlrun.Classify.{
  SqlType, select, insert, update, delete, create_table, create_db, drop_sql, alter, truncate,
  unknown, classify_sql,
}
use data_flow_agent_hub.Sqlrun.Permissions.{is_allowed_for_role, check_system_table_in_sql}
use data_flow_agent_hub.Sqlrun.Run.{
  Answer, Outcome, done, fail, Failure, client, generate, not_allowed, system_table, Call, Pool,
  Row, query_rows, execute_write,
}

-- `Input`
pub record Input : Type 0 where
  pub trace_id : Text
  pub session_id : Text
  pub user_message : Text
  pub schema_json : Text
  pub dialect : Text
  pub role : Text

-- `GenerateSQLResponse`
pub record Generated : Type 0 where
  pub is_ok : Bool
  pub sql : Text
  pub error_message : Text
  pub self_check_notes : Text

-- the reply of the client's `GenerateSQL`, which is a parameter
pub data Reply : Type 0 where
  response : Generated → Reply
  rpc_error : Bool → Text → Reply

-- `Result`
pub record Result (V : Type 0) : Type 0 where
  pub sql : Text
  pub rows : List (Row V)
  pub rows_affected : ℕ
  pub is_write : Bool
  pub self_check_notes : Text

-- the pair of result and error that `Execute` returns
pub data Executed (V : Type 0) : Type 0 where
  result : Result V → Executed V
  failed : Option Text → Failure → Executed V

module _ {V : Type 0} where
  unfoldable pub read_reply : Text → Generated → Outcome (List (Row V)) → Executed V
  read_reply sql gen (fail e) = failed (some sql) e
  read_reply sql gen (done rows) = result (record {
    sql = sql;
    rows = rows;
    rows_affected = 0;
    is_write = false;
    self_check_notes = gen.self_check_notes;
  })

  unfoldable pub write_reply : Text → Generated → Outcome ℕ → Executed V
  write_reply sql gen (fail e) = failed (some sql) e
  write_reply sql gen (done affected) = result (record {
    sql = sql;
    rows = [];
    rows_affected = affected;
    is_write = true;
    self_check_notes = gen.self_check_notes;
  })

  -- the branch for `SQLTypeSelect`
  unfoldable pub run_read : Pool V → ℕ → Text → Generated → List Call → Executed V × List Call
  unfolding read_reply query_rows
  run_read pool max_rows sql gen log =
      let (out, log') = query_rows pool sql max_rows log in (read_reply sql gen out, log')

  -- the default branch, on what its two tests say
  unfoldable pub run_write :
      Option Text
      → Option Text
      → SqlType
      → Pool V
      → Text
      → Generated
      → List Call
      → Executed V × List Call
  unfolding write_reply execute_write
  run_write (some required) tbl sql_type pool sql gen log =
      (failed (some sql) (not_allowed sql_type required), log)
  run_write none (some tbl) sql_type pool sql gen log = (failed (some sql) (system_table tbl), log)
  run_write none none sql_type pool sql gen log =
      let (out, log') = execute_write pool sql log in (write_reply sql gen out, log')

  -- the `switch` on the class of the statement
  unfoldable pub run_typed :
      SqlType
      → List Text
      → Pool V
      → ℕ
      → Text
      → Text
      → Generated
      → List Call
      → Executed V × List Call
  unfolding run_read run_write is_allowed_for_role check_system_table_in_sql
  run_typed select order pool max_rows role sql gen log = run_read pool max_rows sql gen log
  run_typed sql_type order pool max_rows role sql gen log =
      run_write (is_allowed_for_role sql_type role) (check_system_table_in_sql order sql) sql_type
        pool sql gen log

  unfoldable pub run_generated :
      Bool → List Text → Pool V → ℕ → Text → Generated → List Call → Executed V × List Call
  unfolding run_typed classify_sql trim_space
  run_generated false order pool max_rows role gen log =
      (failed none (generate gen.error_message), log)
  run_generated true order pool max_rows role gen log =
      let sql = trim_space gen.sql in
      run_typed (classify_sql sql) order pool max_rows role sql gen log

  unfoldable pub run_reply :
      Reply → List Text → Pool V → ℕ → Text → List Call → Executed V × List Call
  unfolding run_generated
  run_reply (rpc_error status e) order pool max_rows role log = (failed none (client status e), log)
  run_reply (response gen) order pool max_rows role log =
      run_generated gen.is_ok order pool max_rows role gen log

  -- `Execute`, for the replies of the client, an order of the system tables, and a pool that has
  -- seen the calls of `log`
  unfoldable pub execute :
      (Input → Reply) → List Text → Pool V → ℕ → Input → List Call → Executed V × List Call
  unfolding run_reply
  execute generate_sql order pool max_rows input log =
      run_reply (generate_sql input) order pool max_rows input.role log
