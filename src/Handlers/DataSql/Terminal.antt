-- ===== src/Handlers/DataSql/Terminal.antt =====
-- `ExecuteDataSQL` of internal/handlers/data.go: one statement from a user to the pool of a dataset.
use data_flow_agent_hub.Base.{
  ℕ, ◌+◌, Text, codes, same, trim_space, lookup, length, take, ltb, List, [], ◌∷◌, ◌++◌, Bool, true,
  false, not, ◌||◌, Option, none, some, if◌then◌else◌, is_some,
}
use data_flow_agent_hub.Sqlrun.Classify.{SqlType, select, insert, classify_sql}
use data_flow_agent_hub.Sqlrun.Permissions.{is_allowed_for_role}
use data_flow_agent_hub.Sqlrun.Run.{
  Answer, ok, err, Outcome, done, fail, Failure, Call, query, Pool, Row, Rows, query_rows,
  execute_write,
}
use data_flow_agent_hub.Handlers.Users.{Claims}
use data_flow_agent_hub.Handlers.DataSql.{
  validate_sql_terminal, has_dataset_access, Dataset, Catalog,
}

-- the replies of the SQL terminal
pub data TerminalReply (V : Type 0) : Type 0 where
  refused : ℕ → Text → TerminalReply V
  failed : Failure → TerminalReply V
  selected : List Text → List (Row V) → ℕ → Bool → TerminalReply V
  written : SqlType → ℕ → TerminalReply V

-- the pools of `mysqlmgr.Manager`: those it holds, and what `Connect` answers
pub record Manager (V : Type 0) : Type 0 where
  pub held : Text → Option (Pool V)
  pub connect : Text → Text → Answer (Pool V)

-- `maxRows`
abbrev pub max_rows : ℕ
max_rows = 500

-- `"EXPLAIN " + sql`
unfoldable pub explain : Text → Text
explain sql = codes "EXPLAIN " ++ sql

module _ {V : Type 0} where
  -- an `if` that ends in `errJSON(...); return`
  unfoldable pub refuse_if :
      Bool → ℕ → Text → List Call → TerminalReply V × List Call → TerminalReply V × List Call
  refuse_if true status message log rest = (refused status message, log)
  refuse_if false status message log rest = rest

  -- `getDatasetPool`
  unfoldable pub connect_found : Manager V → Bool → Text → Option Dataset → Answer (Pool V)
  connect_found manager fails id none = err (codes "dataset not found or inactive")
  connect_found manager fails id (some d) =
      if fails || not (same d.status (codes "active"))
      then err (codes "dataset not found or inactive")
      else manager.connect id d.mysql_database

  unfoldable pub held_or_connect : Manager V → Catalog → Text → Option (Pool V) → Answer (Pool V)
  held_or_connect manager cat id (some pool) = ok pool
  held_or_connect manager cat id none =
      connect_found manager cat.select_fails id (lookup id cat.datasets)

  unfoldable pub get_dataset_pool : Manager V → Catalog → Text → Answer (Pool V)
  get_dataset_pool manager cat id = held_or_connect manager cat id (manager.held id)

  -- the names of the columns, which Go reads off the map of the first row
  unfoldable pub columns_of : List (Row V) → List Text
  columns_of [] = []
  columns_of (row ∷ rows) = names row
    where
      names : Row V → List Text
      names [] = []
      names ((k, v) ∷ rest) = k ∷ names rest

  unfoldable pub select_reply : Outcome (List (Row V)) → TerminalReply V
  select_reply (fail e) = failed e
  select_reply (done rows) =
      let truncated = ltb max_rows (length rows) in
      selected (columns_of rows) (if truncated then take max_rows rows else rows) (length rows)
        truncated

  unfoldable pub write_reply : SqlType → Outcome ℕ → TerminalReply V
  write_reply sql_type (fail e) = failed e
  write_reply sql_type (done affected) = written sql_type affected

  -- the `SELECT` once `explainValidate` has answered
  unfoldable pub run_explained :
      Answer (Rows V) → Pool V → Text → List Call → TerminalReply V × List Call
  run_explained (err e) pool sql log = (refused 400 e, log)
  run_explained (ok rows) pool sql log =
      let (out, log') = query_rows pool sql (max_rows + 1) log in (select_reply out, log')

  unfoldable pub run_select : Pool V → Text → List Call → TerminalReply V × List Call
  run_select pool sql log =
      run_explained (pool.on_query log (explain sql)) pool sql (log ++ (query (explain sql) ∷ []))

  unfoldable pub run_terminal_write :
      SqlType → Pool V → Text → List Call → TerminalReply V × List Call
  run_terminal_write sql_type pool sql log =
      let (out, log') = execute_write pool sql log in (write_reply sql_type out, log')

  unfoldable pub run_typed :
      SqlType → Answer (Pool V) → Text → List Call → TerminalReply V × List Call
  run_typed sql_type (err e) sql log = (refused 500 e, log)
  run_typed select (ok pool) sql log = run_select pool sql log
  run_typed sql_type (ok pool) sql log = run_terminal_write sql_type pool sql log

  unfoldable pub run_valid :
      Option Text → Answer (Pool V) → Text → List Call → TerminalReply V × List Call
  run_valid (some e) pool sql log = (refused 400 e, log)
  run_valid none pool sql log = run_typed (classify_sql sql) pool sql log

  unfoldable pub run_body :
      Manager V → Catalog → Claims → Text → Text → List Call → TerminalReply V × List Call
  run_body manager cat c dataset sql log =
      refuse_if (same sql [] || same dataset []) 400 (codes "dataset_id and sql are required") log (
        refuse_if (not (has_dataset_access cat c.user_id dataset c.role)) 403
          (codes "no access to this dataset") log
          (run_valid (validate_sql_terminal sql) (get_dataset_pool manager cat dataset) sql log))

  unfoldable pub run_decoded :
      Manager V → Catalog → Claims → Option (Text × Text) → List Call → TerminalReply V × List Call
  run_decoded manager cat c none log = (refused 400 (codes "invalid payload"), log)
  run_decoded manager cat c (some (dataset, sql)) log =
      run_body manager cat c (trim_space dataset) (trim_space sql) log

  -- `ExecuteDataSQL` for the dataset and the statement of the body
  unfoldable pub execute_data_sql :
      Manager V
      → Catalog
      → Option Claims
      → Option (Text × Text)
      → List Call
      → TerminalReply V × List Call
  execute_data_sql manager cat none body log = (refused 401 (codes "unauthorized"), log)
  execute_data_sql manager cat (some c) body log =
      refuse_if (is_some (is_allowed_for_role insert c.role)) 403
        (codes "insufficient permissions to execute SQL") log (run_decoded manager cat c body log)
