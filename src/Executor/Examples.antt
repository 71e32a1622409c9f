-- ===== src/Executor/Examples.antt =====
-- Runs of the executor, and of the handler that calls it for the worker.
use data_flow_agent_hub.Base.{ℕ, codes, same, [], ◌∷◌, true, none, some, ◌≡◌, refl}
use data_flow_agent_hub.Rbac.{normal_user, role_level, read_only_visitor, data_admin, super_admin}
use data_flow_agent_hub.Sqlrun.Permissions.{system_tables, min_role_for_sql_type}
use data_flow_agent_hub.Sqlrun.Run.{Pool, ok, exec}
use data_flow_agent_hub.Executor.{Input, Reply, response, execute}
use data_flow_agent_hub.Executor.Safety.{Permitted, Sent, execute-Permitted}
use data_flow_agent_hub.GrpcServer.Nl2sql.{
  Request, IsQuery, internal_nl2sql, internal_nl2sql-IsQuery,
}

-- a pool that answers every query with no row, and every write with one row
abbrev pool : Pool ℕ
pool = record {
  on_query = λ log sql. ok (record { columns = ok []; scanned = []; end_error = none });
  on_exec = λ log sql. ok 1;
}

abbrev input : Input
input = record {
  trace_id = [];
  session_id = [];
  user_message = codes "add a row";
  schema_json = [];
  dialect = codes "mysql";
  role = normal_user;
}

abbrev worker : Input → Reply
worker i = response (record {
  is_ok = true;
  sql = codes " INSERT INTO t VALUES (1);";
  error_message = [];
  self_check_notes = [];
})

inserted :
    (execute worker system_tables pool 500 input []).1
    ≡ exec (codes "INSERT INTO t VALUES (1)") ∷ []
unfolding execute role_level min_role_for_sql_type normal_user read_only_visitor data_admin
    super_admin same
inserted = refl

execute-Permitted_example :
    Sent
      (Permitted system_tables normal_user 500)
      []
      (execute worker system_tables pool 500 input []).1
execute-Permitted_example = execute-Permitted worker system_tables pool 500 input []

abbrev request : Request
request = record { trace_id = []; user_message = codes "add a row"; schema_json = []; dialect = [] }

internal_nl2sql-IsQuery_example :
    Sent IsQuery []
      (internal_nl2sql (λ rows. some (codes "[]")) worker system_tables pool 500 request []).1
internal_nl2sql-IsQuery_example =
    internal_nl2sql-IsQuery (λ rows. some (codes "[]")) worker system_tables pool 500 request []
