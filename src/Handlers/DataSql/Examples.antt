-- ===== src/Handlers/DataSql/Examples.antt =====
-- SQL files and requests to the SQL terminal.
use data_flow_agent_hub.Base.{ℕ, Text, codes, List, [], ◌∷◌, false, none, some, ◌≡◌, refl, index}
use data_flow_agent_hub.Rbac.{normal_user}
use data_flow_agent_hub.Sqlrun.Run.{Pool, ok, err, Row}
use data_flow_agent_hub.Executor.Safety.{Sent}
use data_flow_agent_hub.Handlers.Users.{Claims}
use data_flow_agent_hub.Handlers.DataSql.{execute_sql_file, Catalog}
use data_flow_agent_hub.Handlers.DataSql.Parse.{parse_sql, remove_block_comments}
use data_flow_agent_hub.Handlers.DataSql.Terminal.{Manager, execute_data_sql}
use data_flow_agent_hub.Handlers.DataSql.Safety.{
  FileWrite, execute_sql_file-FileWrite, TerminalRun, execute_data_sql-TerminalRun,
}
use data_flow_agent_hub.Handlers.DataSql.Counts.{Counted, execute_sql_file-Counted}
use data_flow_agent_hub.Handlers.DataSql.Comments.{opening, remove_block_comments-none}

abbrev pool : Pool ℕ
pool = record {
  on_query = λ log sql. ok (record { columns = ok []; scanned = []; end_error = none });
  on_exec = λ log sql. ok 1;
}

abbrev file : Text
file = codes "/* a */ INSERT INTO t VALUES (1); -- b\n DROP TABLE t ;; /* c"

two_statements : parse_sql file ≡ codes "INSERT INTO t VALUES (1)" ∷ codes "DROP TABLE t" ∷ []
unfolding parse_sql
two_statements = refl

abbrev manager : Manager ℕ
manager = record { held = λ id. some pool; connect = λ id name. err [] }

abbrev catalog : Catalog
catalog = record {
  datasets =
      (codes "d", record { name = codes "n"; mysql_database = codes "db"; status = codes "active" })
      ∷ [];
  permissions =
      record { dataset_id = codes "d"; user_id = codes "u"; permission_level = codes "read" } ∷ [];
  count_fails = false;
  select_fails = false;
}

abbrev user : Claims
user = record { user_id = codes "u"; role = normal_user }

abbrev body : Text × Text
body = (codes "d", codes "UPDATE t SET a = 'where'")

execute_sql_file-FileWrite_example : Sent FileWrite [] (execute_sql_file pool file []).1
execute_sql_file-FileWrite_example = execute_sql_file-FileWrite pool file []

execute_sql_file-Counted_example : Counted pool (parse_sql file) [] (execute_sql_file pool file [])
execute_sql_file-Counted_example = execute_sql_file-Counted pool file []

execute_data_sql-TerminalRun_example :
    TerminalRun catalog
      (some user)
      (some body)
      []
      (execute_data_sql manager catalog (some user) (some body) []).1
execute_data_sql-TerminalRun_example =
    execute_data_sql-TerminalRun manager catalog (some user) (some body) []

abbrev rows : List (Row ℕ)
rows = ((codes "a", 1) ∷ []) ∷ []

remove_block_comments-none_example : index (remove_block_comments file) opening ≡ none
remove_block_comments-none_example = remove_block_comments-none file
