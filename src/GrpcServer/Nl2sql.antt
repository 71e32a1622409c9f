-- ===== src/GrpcServer/Nl2sql.antt =====
-- `InternalNL2SQL` of internal/grpcserver/server.go.
use data_flow_agent_hub.Base.{
  ℕ, Text, codes, same, List, [], ◌∷◌, Bool, true, false, Option, none, some, ◌≡◌, refl, ap, ◌∙◌,
  if◌then◌else◌, All,
}
use data_flow_agent_hub.Rbac.{
  min_role, role_level, admits, read_only_visitor, normal_user, data_admin, super_admin,
}
use data_flow_agent_hub.Sqlrun.Permissions.{min_role_for_sql_type}
use data_flow_agent_hub.Sqlrun.Classify.{classify_sql}
use data_flow_agent_hub.Sqlrun.Run.{
  Failure, client, generate, not_read_only, not_allowed, system_table, database, Call, query, exec,
  Pool, Row,
}
use data_flow_agent_hub.Executor.{Input, Reply, Executed, result, failed, execute}
use data_flow_agent_hub.Executor.Safety.{
  Permitted, reading, writing, Sent, nothing, execute-Permitted,
}

-- `InternalNL2SQLRequest`
pub record Request : Type 0 where
  pub trace_id : Text
  pub user_message : Text
  pub schema_json : Text
  pub dialect : Text

-- `InternalNL2SQLResponse`, or an error with its gRPC code
pub data Response : Type 0 where
  answer : Text → Text → Text → Response  -- sql, rows and notes, with `ok`
  refused : Failure → Response  -- the error message, without `ok`
  invalid_argument : Response
  unavailable : Text → Response

unfoldable pub input_of : Request → Input
unfolding same
input_of req = record {
  trace_id = req.trace_id;
  session_id = [];
  user_message = req.user_message;
  schema_json = req.schema_json;
  dialect = if same req.dialect [] then codes "mysql" else req.dialect;
  role = [];
}

-- `rowsJSON`, with the fall-back where `json.Marshal`, a parameter, fails
unfoldable pub rows_json : Option Text → Text
rows_json none = codes "[]"
rows_json (some json) = json

-- `status.FromError` succeeds on an error that carries a gRPC status
unfoldable pub refuse : Failure → Response
refuse (client true e) = unavailable e
refuse (client false e) = refused (client false e)
refuse (generate e) = refused (generate e)
refuse (not_read_only k) = refused (not_read_only k)
refuse (not_allowed t r) = refused (not_allowed t r)
refuse (system_table t) = refused (system_table t)
refuse (database e) = refused (database e)

module _ {V : Type 0} (marshal : List (Row V) → Option Text) where
  unfoldable pub respond : Executed V → Response
  unfolding rows_json refuse
  respond (result r) = answer r.sql (rows_json (marshal r.rows)) r.self_check_notes
  respond (failed sql e) = refuse e

  unfoldable pub respond_with : Executed V × List Call → Response × List Call
  unfolding respond
  respond_with (out, log) = (respond out, log)

  unfoldable pub internal_nl2sql :
      (Input → Reply) → List Text → Pool V → ℕ → Request → List Call → Response × List Call
  unfolding respond_with input_of execute
  internal_nl2sql generate_sql order pool max_rows req log =
      let run = respond_with (execute generate_sql order pool max_rows (input_of req) log) in
      if same req.user_message [] then (invalid_argument, log) else run

-- a call that only reads
abbrev pub IsQuery : Call → Type 0
IsQuery (query sql) = Unit
IsQuery (exec sql) = ⊥

no_level : role_level [] ≡ none
unfolding role_level read_only_visitor normal_user data_admin super_admin same
no_level = refl

admits-none : (required : Option ℕ) → admits required none ≡ false
unfolding admits
admits-none none = refl
admits-none (some n) = refl

no_role : (required : Text) → min_role required [] ≡ false
unfolding min_role
no_role required = ap (admits (role_level required)) no_level ∙ admits-none (role_level required)

-- the empty role, which this handler leaves in the input, permits no write
Permitted-IsQuery :
    {order : List Text} {max_rows : ℕ} {role : Text} {c : Call}
    → role ≡ []
    → Permitted order role max_rows c
    → IsQuery c
Permitted-IsQuery e (reading sql h) = tt
Permitted-IsQuery {role = role} e (writing sql h s) =
    let required = min_role_for_sql_type (classify_sql sql) in
    cc (no_role required, ap (min_role required) e, h)

All-IsQuery :
    (order : List Text) (max_rows : ℕ) (cs : List Call)
    → All (Permitted order [] max_rows) cs
    → All IsQuery cs
All-IsQuery order n [] h = tt
All-IsQuery order n (c ∷ cs) (h, hs) = (Permitted-IsQuery refl h, All-IsQuery order n cs hs)

Sent-IsQuery :
    {order : List Text} {max_rows : ℕ} {log log' : List Call}
    → Sent (Permitted order [] max_rows) log log'
    → Sent IsQuery log log'
Sent-IsQuery {order} {max_rows} s = record {
  calls = s.calls;
  appended = s.appended;
  each = All-IsQuery order max_rows s.calls s.each;
}

Sent-if :
    (b : Bool) {A : Type 0} (x : A) (log : List Call) (run : A × List Call)
    → Sent IsQuery log run.1
    → Sent IsQuery log (if b then (x, log) else run).1
Sent-if true x log run h = nothing IsQuery log
Sent-if false x log run h = h

-- Whatever the worker asks and whatever SQL the model answers, `InternalNL2SQL` writes to no
-- database: each call that it adds to those of the pool is a query.
pub internal_nl2sql-IsQuery :
    {V : Type 0} (marshal : List (Row V) → Option Text) (generate_sql : Input → Reply)
    (order : List Text) (pool : Pool V) (max_rows : ℕ) (req : Request) (log : List Call)
    → Sent IsQuery log (internal_nl2sql marshal generate_sql order pool max_rows req log).1
unfolding internal_nl2sql
internal_nl2sql-IsQuery marshal generate_sql order pool max_rows req log =
    Sent-if (same req.user_message []) invalid_argument log _
      (Sent-IsQuery (execute-Permitted generate_sql order pool max_rows (input_of req) log))
