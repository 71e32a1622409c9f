-- ===== src/Handlers/DataSql/Counts.antt =====
-- internal/handlers/data.go: the numbers and the errors in the reply to an SQL file.
use data_flow_agent_hub.Base.{
  ℕ, suc, ◌+◌, Text, length, List, [], ◌∷◌, ◌++◌, true, Option, none, some, ◌≡◌, ◌≢◌, ◌⊎◌, inl, inr,
  ap, sym, ◌∙◌, ◌↔◌, refl, arith, ==_iff, append_assoc, append-nil,
}
use data_flow_agent_hub.Sqlrun.Run.{
  Answer, ok, err, database, Call, exec, Pool, prepare, outcome, execute_write,
}
use data_flow_agent_hub.Handlers.DataSql.{
  StatementError, not_executed, validate_type, validate_sql_statement, SqlFileResult, run_statement,
  run_statements, execute_sql_file, start_result, finish, file_failed, file_outcome,
}
use data_flow_agent_hub.Sqlrun.Classify.{
  SqlType, select, insert, update, delete, create_table, create_db, drop_sql, alter, truncate,
  unknown, classify_sql,
}
use data_flow_agent_hub.Handlers.DataSql.Parse.{parse_sql}

-- What becomes of the statements from a number on, behind some calls: how many succeed, how many rows
-- they change, the errors of the others with their numbers from 1, and all calls in the end.
pub data Runs {V : Type 0} (pool : Pool V)
    : ℕ → List Text → List Call → ℕ → ℕ → List (ℕ × StatementError) → List Call → Type 0 where
  ended : {i : ℕ} {log : List Call} → Runs pool i [] log 0 0 [] log
  refused_one :
      {i succeeded affected : ℕ} {stmt : Text} {stmts : List Text} {log log' : List Call}
      {e : StatementError} {errors : List (ℕ × StatementError)}
      → classify_sql stmt ≢ insert
      → classify_sql stmt ≢ update
      → Runs pool (suc i) stmts log succeeded affected errors log'
      → Runs pool i (stmt ∷ stmts) log succeeded affected ((i + 1, e) ∷ errors) log'
  failed_one :
      {i succeeded affected : ℕ} {stmt e : Text} {stmts : List Text} {log log' : List Call}
      {errors : List (ℕ × StatementError)}
      → (classify_sql stmt ≡ insert) ⊎ (classify_sql stmt ≡ update)
      → pool.on_exec log (prepare stmt) ≡ err e
      → Runs pool (suc i) stmts (log ++ (exec (prepare stmt) ∷ [])) succeeded affected errors log'
      → Runs pool i
          (stmt ∷ stmts)
          log
          succeeded
          affected
          ((i + 1, not_executed (database e)) ∷ errors)
          log'
  succeeded_one :
      {i n succeeded affected : ℕ} {stmt : Text} {stmts : List Text} {log log' : List Call}
      {errors : List (ℕ × StatementError)}
      → (classify_sql stmt ≡ insert) ⊎ (classify_sql stmt ≡ update)
      → pool.on_exec log (prepare stmt) ≡ ok n
      → Runs pool (suc i) stmts (log ++ (exec (prepare stmt) ∷ [])) succeeded affected errors log'
      → Runs pool i (stmt ∷ stmts) log (suc succeeded) (n + affected) errors log'

-- what a result adds to another one
pub record Adds {V : Type 0} (pool : Pool V) (i : ℕ) (stmts : List Text) (r r' : SqlFileResult)
    (log log' : List Call) : Type 0 where
  pub succeeded : ℕ
  pub affected : ℕ
  pub errors : List (ℕ × StatementError)
  pub runs : Runs pool i stmts log succeeded affected errors log'
  pub counted : r'.succeeded ≡ r.succeeded + succeeded
  pub changed : r'.rows_affected ≡ r.rows_affected + affected
  pub listed : r'.errors ≡ r.errors ++ errors
  pub failing : r'.failed ≡ r.failed + length errors
  pub all_stmts : r'.total_stmts ≡ r.total_stmts

validate_type-accepts : (t : SqlType) → validate_type t ≡ none → (t ≡ insert) ⊎ (t ≡ update)
unfolding validate_type
validate_type-accepts select h = absurd (cc h)
validate_type-accepts insert h = inl refl
validate_type-accepts update h = inr refl
validate_type-accepts delete h = absurd (cc h)
validate_type-accepts create_table h = absurd (cc h)
validate_type-accepts create_db h = absurd (cc h)
validate_type-accepts drop_sql h = absurd (cc h)
validate_type-accepts alter h = absurd (cc h)
validate_type-accepts truncate h = absurd (cc h)
validate_type-accepts unknown h = absurd (cc h)

validate_type-refuses :
    (t : SqlType) (e : StatementError) → validate_type t ≡ some e → (t ≢ insert) × (t ≢ update)
unfolding validate_type
validate_type-refuses select e h = (λ i. cc i, λ u. cc u)
validate_type-refuses insert e h = absurd (cc h)
validate_type-refuses update e h = absurd (cc h)
validate_type-refuses delete e h = (λ i. cc i, λ u. cc u)
validate_type-refuses create_table e h = (λ i. cc i, λ u. cc u)
validate_type-refuses create_db e h = (λ i. cc i, λ u. cc u)
validate_type-refuses drop_sql e h = (λ i. cc i, λ u. cc u)
validate_type-refuses alter e h = (λ i. cc i, λ u. cc u)
validate_type-refuses truncate e h = (λ i. cc i, λ u. cc u)
validate_type-refuses unknown e h = (λ i. cc i, λ u. cc u)

module _ {V : Type 0} (pool : Pool V) where
  abbrev After : ℕ → List Text → SqlFileResult → List Call → SqlFileResult × List Call → Type 0
  After i stmts r log out = Adds pool i stmts r out.0 log out.1

  failed-cons :
      (i : ℕ) (stmt : Text) (stmts : List Text) (e : StatementError) (r : SqlFileResult)
      (log log₁ : List Call) (out : SqlFileResult × List Call)
      → ((s a : ℕ) (es : List (ℕ × StatementError))
          → Runs pool (suc i) stmts log₁ s a es out.1
          → Runs pool i (stmt ∷ stmts) log s a ((i + 1, e) ∷ es) out.1)
      → After (suc i) stmts (file_failed i e r) log₁ out
      → After i (stmt ∷ stmts) r log out
  unfolding file_failed
  failed-cons i stmt stmts e r log log₁ out rule a = record {
    succeeded = a.succeeded;
    affected = a.affected;
    errors = (i + 1, e) ∷ a.errors;
    runs = rule a.succeeded a.affected a.errors a.runs;
    counted = a.counted;
    changed = a.changed;
    listed = a.listed ∙ append_assoc r.errors ((i + 1, e) ∷ []) a.errors;
    failing = omega (arith, a.failing);
    all_stmts = a.all_stmts;
  }

  executed-cons :
      (i : ℕ) (stmt : Text) (stmts : List Text) (r : SqlFileResult) (log : List Call)
      (answer : Answer ℕ) (out : SqlFileResult × List Call)
      → validate_sql_statement stmt ≡ none
      → pool.on_exec log (prepare stmt) ≡ answer
      → After
          (suc i)
          stmts
          (file_outcome i (outcome answer) r)
          (log ++ (exec (prepare stmt) ∷ []))
          out
      → After i (stmt ∷ stmts) r log out
  unfolding file_outcome validate_sql_statement
  executed-cons i stmt stmts r log (err e) out valid answer a =
      failed-cons i stmt stmts (not_executed (database e)) r log _ out
        (λ s a es runs. failed_one (validate_type-accepts (classify_sql stmt) valid) answer runs) a
  executed-cons i stmt stmts r log (ok n) out valid answer a = record {
    succeeded = suc a.succeeded;
    affected = n + a.affected;
    errors = a.errors;
    runs = succeeded_one (validate_type-accepts (classify_sql stmt) valid) answer a.runs;
    counted = omega (arith, a.counted);
    changed = omega (arith, a.changed);
    listed = a.listed;
    failing = a.failing;
    all_stmts = a.all_stmts;
  }

  round-After :
      (i : ℕ) (stmt : Text) (stmts : List Text) (r : SqlFileResult) (log : List Call)
      (o : Option StatementError)
      → validate_sql_statement stmt ≡ o
      → ((r' : SqlFileResult) (log' : List Call)
          → After (suc i) stmts r' log' (run_statements pool (suc i) stmts (r', log')))
      → After i
          (stmt ∷ stmts)
          r
          log
          (run_statements pool (suc i) stmts (run_statement o pool i stmt (r, log)))
  unfolding run_statement execute_write validate_sql_statement
  round-After i stmt stmts r log (some e) valid rest =
      failed-cons i stmt stmts e r log log _
        (λ s a es runs.
          let h = validate_type-refuses (classify_sql stmt) e valid in refused_one h.0 h.1 runs)
        (rest (file_failed i e r) log)
  round-After i stmt stmts r log none valid rest =
      executed-cons i stmt stmts r log (pool.on_exec log (prepare stmt)) _ valid refl (rest _ _)

  run_statements-After :
      (stmts : List Text) (i : ℕ) (r : SqlFileResult) (log : List Call)
      → After i stmts r log (run_statements pool i stmts (r, log))
  unfolding run_statements
  run_statements-After [] i r log = record {
    succeeded = 0;
    affected = 0;
    errors = [];
    runs = ended;
    counted = omega arith;
    changed = omega arith;
    listed = sym (append-nil r.errors);
    failing = omega arith;
    all_stmts = refl;
  }
  run_statements-After (stmt ∷ stmts) i r log =
      round-After i stmt stmts r log (validate_sql_statement stmt) refl
        (λ r' log'. run_statements-After stmts (suc i) r' log')

  length-Runs :
      {i succeeded affected : ℕ} {stmts : List Text} {log log' : List Call}
      {errors : List (ℕ × StatementError)}
      → Runs pool i stmts log succeeded affected errors log'
      → succeeded + length errors ≡ length stmts
  length-Runs ended = refl
  length-Runs (refused_one no_insert no_update runs) = omega (arith, length-Runs runs)
  length-Runs (failed_one valid answer runs) = omega (arith, length-Runs runs)
  length-Runs (succeeded_one valid answer runs) = omega (arith, length-Runs runs)

-- the numbers of a result, as what the statements of its file came to
pub record Counted {V : Type 0} (pool : Pool V) (stmts : List Text) (log : List Call)
    (out : SqlFileResult × List Call) : Type 0 where
  pub runs : Runs pool 0 stmts log out.0.succeeded out.0.rows_affected out.0.errors out.1
  pub failing : out.0.failed ≡ length out.0.errors
  pub sum : out.0.succeeded + out.0.failed ≡ length stmts
  pub all_stmts : out.0.total_stmts ≡ length stmts
  pub fine : (out.0.is_ok ≡ true) ↔ (out.0.failed ≡ 0)

-- The result of a file tells what became of its statements: one that is classified neither as INSERT nor as UPDATE
-- is an error and reaches no database; any other is executed, in order, and counted as succeeded, with
-- the rows that it changed, where the database accepts it, and as an error with the answer of the
-- database where it refuses it. The errors stand in the order of the statements, with their
-- numbers; as many failed as there are errors, every statement succeeded or failed, and the result is
-- ok exactly if none failed.
pub execute_sql_file-Counted :
    {V : Type 0} (pool : Pool V) (file_data : Text) (log : List Call)
    → Counted pool (parse_sql file_data) log (execute_sql_file pool file_data log)
unfolding execute_sql_file finish start_result
execute_sql_file-Counted pool file_data log =
    let stmts = parse_sql file_data in
    let a = run_statements-After pool stmts 0 (start_result stmts) log in
    let n = length-Runs pool a.runs in
    let out = run_statements pool 0 stmts (start_result stmts, log) in
    let total : out.0.succeeded ≡ a.succeeded = omega (arith, a.counted) in
    let changed : out.0.rows_affected ≡ a.affected = omega (arith, a.changed) in
    let listed : out.0.errors ≡ a.errors = a.listed in
    record {
      runs = rw (total, changed, listed) a.runs;
      failing = omega (arith, a.failing, ap length listed);
      sum = omega (arith, a.counted, a.failing, n);
      all_stmts = a.all_stmts;
      fine = ==_iff out.0.failed 0;
    }
