-- ===== src/Executor/Safety.antt =====
-- What the executor lets through to a database.
use data_flow_agent_hub.Base.{
  ℕ, Text, trim_space, List, [], ◌∷◌, ◌++◌, append-nil, Bool, true, false, Option, none, some, ◌≡◌,
  refl, sym, All,
}
use data_flow_agent_hub.Rbac.{min_role}
use data_flow_agent_hub.Sqlrun.Classify.{SqlType, select, classify_sql}
use data_flow_agent_hub.Sqlrun.Lexer.{is_read_only_sql}
use data_flow_agent_hub.Sqlrun.Permissions.{
  is_allowed_for_role, min_role_for_sql_type, check_system_table_in_sql,
}
use data_flow_agent_hub.Sqlrun.Permissions.Roles.{is_allowed-min_role}
use data_flow_agent_hub.Sqlrun.Run.{Call, query, exec, Pool, prepare, wrap, query_checked}
use data_flow_agent_hub.Executor.{
  Input, Generated, Reply, response, rpc_error, run_read, run_write, run_typed, run_generated,
  run_reply, execute,
}

-- A call that a user of `role` may cause: a query of a statement with no write keyword, wrapped
-- into a limit, or a write of a class that rbac admits for the role and that names no system table.
pub data Permitted (order : List Text) (role : Text) (max_rows : ℕ) : Call → Type 0 where
  reading :
      (sql : Text)
      → is_read_only_sql (prepare sql) ≡ none
      → Permitted order role max_rows (query (wrap (prepare sql) max_rows))
  writing :
      (sql : Text)
      → min_role (min_role_for_sql_type (classify_sql sql)) role ≡ true
      → check_system_table_in_sql order sql ≡ none
      → Permitted order role max_rows (exec (prepare sql))

-- the calls behind those of `log`
pub record Sent {ℓ} (P : Call → Type ℓ) (log log' : List Call) : Type ℓ where
  pub calls : List Call
  pub appended : log' ≡ log ++ calls
  pub each : All P calls

pub nothing {ℓ} : (P : Call → Type ℓ) (log : List Call) → Sent P log log
nothing P log = record { calls = []; appended = sym (append-nil log); each = tt }

pub one {ℓ} : (P : Call → Type ℓ) (log : List Call) (c : Call) → P c → Sent P log (log ++ (c ∷ []))
one P log c h = record { calls = c ∷ []; appended = refl; each = (h, tt) }

module _ {V : Type 0} (order : List Text) (pool : Pool V) (max_rows : ℕ) (role : Text) where
  abbrev P : Call → Type 0
  P = Permitted order role max_rows

  query-Permitted :
      (o : Option Text) (sql : Text) (log : List Call)
      → is_read_only_sql (prepare sql) ≡ o
      → Sent P log (query_checked o pool (prepare sql) max_rows log).1
  unfolding query_checked
  query-Permitted (some k) sql log e = nothing P log
  query-Permitted none sql log e = one P log _ (reading sql e)

  read-Permitted :
      (sql : Text) (gen : Generated) (log : List Call)
      → Sent P log (run_read pool max_rows sql gen log).1
  unfolding run_read
  read-Permitted sql gen log = query-Permitted (is_read_only_sql (prepare sql)) sql log refl

  write-Permitted :
      (allowed tbl : Option Text) (t : SqlType) (sql : Text) (gen : Generated) (log : List Call)
      → classify_sql sql ≡ t
      → is_allowed_for_role t role ≡ allowed
      → check_system_table_in_sql order sql ≡ tbl
      → Sent P log (run_write allowed tbl t pool sql gen log).1
  unfolding run_write
  write-Permitted (some r) tbl t sql gen log e a s = nothing P log
  write-Permitted none (some x) t sql gen log e a s = nothing P log
  write-Permitted none none t sql gen log e a s =
      one P log _ (writing sql (rw e ((is_allowed-min_role t role).0 a)) s)

  typed-Permitted :
      (t : SqlType) (sql : Text) (gen : Generated) (log : List Call)
      → classify_sql sql ≡ t
      → Sent P log (run_typed t order pool max_rows role sql gen log).1
  unfolding run_typed
  typed-Permitted select sql gen log e = read-Permitted sql gen log
  typed-Permitted t sql gen log e = write-Permitted _ _ t sql gen log e refl refl

  generated-Permitted :
      (b : Bool) (gen : Generated) (log : List Call)
      → Sent P log (run_generated b order pool max_rows role gen log).1
  unfolding run_generated
  generated-Permitted false gen log = nothing P log
  generated-Permitted true gen log =
      typed-Permitted (classify_sql (trim_space gen.sql)) _ gen log refl

  reply-Permitted :
      (r : Reply) (log : List Call) → Sent P log (run_reply r order pool max_rows role log).1
  unfolding run_reply
  reply-Permitted (rpc_error status e) log = nothing P log
  reply-Permitted (response gen) log = generated-Permitted gen.is_ok gen log

-- Whatever SQL the model answers, a run of the executor adds to the calls of the pool only such as
-- the role of its input permits: a query whose statement holds no write keyword, or a write of a
-- class that `rbac.MinRole` admits for the role and in which no system table is found. With the
-- calls before it the pool keeps them in their order.
pub execute-Permitted :
    {V : Type 0} (generate_sql : Input → Reply) (order : List Text) (pool : Pool V) (max_rows : ℕ)
    (input : Input) (log : List Call)
    → Sent
        (Permitted order input.role max_rows)
        log
        (execute generate_sql order pool max_rows input log).1
unfolding execute
execute-Permitted generate_sql order pool max_rows input log =
    reply-Permitted order pool max_rows input.role (generate_sql input) log
