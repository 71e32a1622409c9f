-- ===== src/Handlers/DataSql/Safety.antt =====
-- internal/handlers/data.go: what SQL files and the SQL terminal let through to a pool.
use data_flow_agent_hub.Base.{
  ℕ, suc, ◌+◌, Text, trim_space, List, [], ◌∷◌, ◌++◌, Bool, true, false, Option, none, some, ◌≡◌,
  ◌⊎◌, inl, inr, refl, ap, arith, is_some, append_assoc, All-append, ◌∙◌,
}
use data_flow_agent_hub.Rbac.{min_role, normal_user}
use data_flow_agent_hub.Sqlrun.Classify.{SqlType, select, insert, update, classify_sql}
use data_flow_agent_hub.Sqlrun.Lexer.{is_read_only_sql}
use data_flow_agent_hub.Sqlrun.Permissions.{is_allowed_for_role, min_role_for_sql_type}
use data_flow_agent_hub.Sqlrun.Permissions.Roles.{is_allowed-min_role}
use data_flow_agent_hub.Sqlrun.Run.{
  Answer, ok, err, Call, query, exec, Pool, Rows, prepare, wrap, query_rows, query_checked,
  execute_write,
}
use data_flow_agent_hub.Executor.Safety.{Sent, nothing, one}
use data_flow_agent_hub.Handlers.Users.{Claims}
use data_flow_agent_hub.Handlers.DataSql.{
  StatementError, validate_type, validate_sql_statement, SqlFileResult, run_statement,
  run_statements, execute_sql_file, start_result, finish, has_where, terminal_type,
  validate_sql_terminal, has_dataset_access, Catalog,
}
use data_flow_agent_hub.Handlers.DataSql.Parse.{parse_sql}
use data_flow_agent_hub.Handlers.DataSql.Terminal.{
  TerminalReply, Manager, max_rows, explain, refuse_if, get_dataset_pool, run_explained, run_select,
  run_terminal_write, run_typed, run_valid, run_body, run_decoded, execute_data_sql,
}

pub Sent-then {ℓ} : (P : Call → Type ℓ) (a b c : List Call) → Sent P a b → Sent P b c → Sent P a c
Sent-then P a b c s t = record {
  calls = s.calls ++ t.calls;
  appended = t.appended ∙ ap (λ x. x ++ t.calls) s.appended ∙ append_assoc a s.calls t.calls;
  each = All-append P s.calls t.calls s.each t.each;
}

-- a write of a file: an insert or an update
pub data FileWrite : Call → Type 0 where
  file_write :
      (stmt : Text)
      → (classify_sql stmt ≡ insert) ⊎ (classify_sql stmt ≡ update)
      → FileWrite (exec (prepare stmt))

validate_type-none : (t : SqlType) → validate_type t ≡ none → (t ≡ insert) ⊎ (t ≡ update)
unfolding validate_type
validate_type-none insert e = inl refl
validate_type-none update e = inr refl
validate_type-none t e = absurd (cc e)

module _ {V : Type 0} (pool : Pool V) where
  run_statement-FileWrite :
      (o : Option StatementError) (i : ℕ) (stmt : Text) (r : SqlFileResult) (log : List Call)
      → validate_sql_statement stmt ≡ o
      → Sent FileWrite log (run_statement o pool i stmt (r, log)).1
  unfolding run_statement execute_write
  run_statement-FileWrite (some e) i stmt r log v = nothing FileWrite log
  run_statement-FileWrite none i stmt r log v = one FileWrite log (exec (prepare stmt)) (
      file_write stmt (validate_type-none (classify_sql stmt) (unfold validate_sql_statement in v)))

  run_statements-FileWrite :
      (i : ℕ) (stmts : List Text) (s : SqlFileResult × List Call)
      → Sent FileWrite s.1 (run_statements pool i stmts s).1
  unfolding run_statements
  run_statements-FileWrite i [] (r, log) = nothing FileWrite log
  run_statements-FileWrite i (stmt ∷ stmts) (r, log) =
      Sent-then FileWrite log _ _
        (run_statement-FileWrite (validate_sql_statement stmt) i stmt r log refl)
        (run_statements-FileWrite (suc i) stmts
          (run_statement (validate_sql_statement stmt) pool i stmt (r, log)))

-- Whatever a file holds, a pool gets from it only writes of statements that are classified as INSERT
-- or UPDATE, behind the calls before.
pub execute_sql_file-FileWrite :
    {V : Type 0} (pool : Pool V) (file_data : Text) (log : List Call)
    → Sent FileWrite log (execute_sql_file pool file_data log).1
unfolding execute_sql_file finish
execute_sql_file-FileWrite pool file_data log =
    run_statements-FileWrite pool 0 (parse_sql file_data) (start_result (parse_sql file_data), log)

-- One call that the terminal makes for a user and a dataset: the role is admitted to writes of class
-- INSERT, the user has access to the dataset, and the call explains a SELECT, reads by a SELECT
-- without a write keyword up to a row more than is shown, or writes by an INSERT or by an UPDATE that
-- holds the word WHERE.
pub record Admitted (cat : Catalog) (c : Claims) (dataset : Text) : Type 0 where
  pub role : min_role normal_user c.role ≡ true
  pub access : has_dataset_access cat c.user_id dataset c.role ≡ true

pub data TerminalCall : Call → Type 0 where
  explains : (sql : Text) → classify_sql sql ≡ select → TerminalCall (query (explain sql))
  reads :
      (sql : Text)
      → classify_sql sql ≡ select
      → is_read_only_sql (prepare sql) ≡ none
      → TerminalCall (query (wrap (prepare sql) (max_rows + 1)))
  inserts : (sql : Text) → classify_sql sql ≡ insert → TerminalCall (exec (prepare sql))
  updates :
      (sql : Text)
      → classify_sql sql ≡ update
      → has_where sql ≡ true
      → TerminalCall (exec (prepare sql))

module _ {V : Type 0} where
  refuse_if-keeps {κ} :
      (P : List Call → Type κ) (b : Bool) (status : ℕ) (message : Text) (log : List Call)
      (rest : TerminalReply V × List Call)
      → P log
      → (b ≡ false → P rest.1)
      → P (refuse_if b status message log rest).1
  unfolding refuse_if
  refuse_if-keeps P true status message log rest h next = h
  refuse_if-keeps P false status message log rest h next = next refl

  query_checked-TerminalCall :
      (o : Option Text) (pool : Pool V) (sql : Text) (log : List Call)
      → classify_sql sql ≡ select
      → is_read_only_sql (prepare sql) ≡ o
      → Sent TerminalCall log (query_checked o pool (prepare sql) (max_rows + 1) log).1
  unfolding query_checked
  query_checked-TerminalCall (some k) pool sql log is e = nothing TerminalCall log
  query_checked-TerminalCall none pool sql log is e = one TerminalCall log _ (reads sql is e)

  run_explained-TerminalCall :
      (a : Answer (Rows V)) (pool : Pool V) (sql : Text) (log : List Call)
      → classify_sql sql ≡ select
      → Sent TerminalCall log (run_explained a pool sql log).1
  unfolding run_explained query_rows
  run_explained-TerminalCall (err e) pool sql log is = nothing TerminalCall log
  run_explained-TerminalCall (ok rows) pool sql log is =
      query_checked-TerminalCall (is_read_only_sql (prepare sql)) pool sql log is refl

  run_typed-TerminalCall :
      (t : SqlType) (a : Answer (Pool V)) (sql : Text) (log : List Call)
      → classify_sql sql ≡ t
      → terminal_type t sql ≡ none
      → Sent TerminalCall log (run_typed t a sql log).1
  unfolding run_typed run_select run_terminal_write execute_write terminal_type
  run_typed-TerminalCall t (err e) sql log is valid = nothing TerminalCall log
  run_typed-TerminalCall select (ok pool) sql log is valid =
      Sent-then TerminalCall log _ _ (one TerminalCall log (query (explain sql)) (explains sql is))
        (run_explained-TerminalCall (pool.on_query log (explain sql)) pool sql
          (log ++ (query (explain sql) ∷ [])) is)
  run_typed-TerminalCall insert (ok pool) sql log is valid =
      one TerminalCall log (exec (prepare sql)) (inserts sql is)
  run_typed-TerminalCall update (ok pool) sql log is valid =
      one TerminalCall log (exec (prepare sql)) (updates sql is (ground (arith, valid)))
  run_typed-TerminalCall t (ok pool) sql log is valid = absurd (cc valid)

  run_valid-TerminalCall :
      (o : Option Text) (a : Answer (Pool V)) (sql : Text) (log : List Call)
      → validate_sql_terminal sql ≡ o
      → Sent TerminalCall log (run_valid o a sql log).1
  unfolding run_valid validate_sql_terminal
  run_valid-TerminalCall (some e) a sql log v = nothing TerminalCall log
  run_valid-TerminalCall none a sql log v =
      run_typed-TerminalCall (classify_sql sql) a sql log refl v

-- The calls of a run of the terminal: none, or calls of its kinds for an admitted user.
abbrev pub TerminalRun :
    Catalog → Option Claims → Option (Text × Text) → List Call → List Call → Type 0
TerminalRun cat claims body log log' =
    (log' ≡ log)
    ⊎ ((c : Claims) × (dataset : Text) × (sql : Text) × (claims ≡ some c)
        × (body ≡ some (dataset, sql))
        × Admitted cat c (trim_space dataset)
        × Sent TerminalCall log log')

is_some-none {ℓ} : {A : Type ℓ} (o : Option A) → is_some o ≡ false → o ≡ none
is_some-none none e = refl
is_some-none (some a) e = absurd (ground (arith, e))

allowed-role :
    (role : Text)
    → is_some (is_allowed_for_role insert role) ≡ false
    → min_role normal_user role ≡ true
unfolding min_role_for_sql_type
allowed-role role e =
    (is_allowed-min_role insert role).0 (is_some-none (is_allowed_for_role insert role) e)

module _ {V : Type 0} (manager : Manager V) (cat : Catalog) where
  run_body-TerminalRun :
      (c : Claims) (dataset sql : Text) (log : List Call)
      → min_role normal_user c.role ≡ true
      → TerminalRun cat
          (some c)
          (some (dataset, sql))
          log
          (run_body manager cat c (trim_space dataset) (trim_space sql) log).1
  unfolding run_body
  run_body-TerminalRun c dataset sql log role =
      refuse_if-keeps (TerminalRun cat (some c) (some (dataset, sql)) log) _ _ _ log _ (inl refl)
        (λ full.
          refuse_if-keeps (TerminalRun cat (some c) (some (dataset, sql)) log) _ _ _ log _
            (inl refl)
            (λ may. inr (
              c,
              dataset,
              sql,
              refl,
              refl,
              record { role = role; access = ground (arith, may) },
              run_valid-TerminalCall (validate_sql_terminal (trim_space sql))
                  (get_dataset_pool manager cat (trim_space dataset)) (trim_space sql) log refl,
            )))

  -- A request to the SQL terminal leaves the calls of the pools as they were, or it comes from a user
  -- whose role reaches normal_user and who has access to the dataset of the request, and adds only
  -- explained and read SELECTs, INSERTs, and UPDATEs that hold the word WHERE.
  pub execute_data_sql-TerminalRun :
      (claims : Option Claims) (body : Option (Text × Text)) (log : List Call)
      → TerminalRun cat claims body log (execute_data_sql manager cat claims body log).1
  unfolding execute_data_sql run_decoded
  execute_data_sql-TerminalRun none body log = inl refl
  execute_data_sql-TerminalRun (some c) none log =
      refuse_if-keeps (TerminalRun cat (some c) none log) _ _ _ log _ (inl refl) (λ may. inl refl)
  execute_data_sql-TerminalRun (some c) (some (dataset, sql)) log =
      refuse_if-keeps (TerminalRun cat (some c) (some (dataset, sql)) log) _ _ _ log _ (inl refl)
        (λ may. run_body-TerminalRun c dataset sql log (allowed-role c.role may))
