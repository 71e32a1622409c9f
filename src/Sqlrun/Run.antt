-- ===== src/Sqlrun/Run.antt =====
-- internal/sqlrun/run.go: the two ways in which a statement reaches a pool of connections.
-- A pool is a parameter: its answers may depend on all the calls before. Contexts and timeouts are
-- not modelled; a call that times out is one that the pool answers with an error.
use data_flow_agent_hub.Base.{
  ℕ, Text, codes, trim_space, decimal, put, List, [], ◌∷◌, ◌++◌, Bool, Option, none, some, ◌==◌,
  if◌then◌else◌,
}
use data_flow_agent_hub.Sqlrun.Lexer.{is_read_only_sql}
use data_flow_agent_hub.Sqlrun.Classify.{SqlType}

-- an answer of code outside the repository
pub data Answer {ℓ} (A : Type ℓ) : Type ℓ where
  ok : A → Answer A
  err : Text → Answer A

-- the errors of this package and of the executor
pub data Failure : Type 0 where
  client : Bool → Text → Failure  -- a failed gRPC call, and whether it carries a gRPC status
  generate : Text → Failure
  not_read_only : Text → Failure
  not_allowed : SqlType → Text → Failure
  system_table : Text → Failure
  database : Text → Failure

pub data Outcome {ℓ} (A : Type ℓ) : Type ℓ where
  done : A → Outcome A
  fail : Failure → Outcome A

-- what is sent to a pool: `QueryContext` and `ExecContext`
pub data Call : Type 0 where
  query exec : Text → Call

-- `sql.Rows`: its columns, what `Scan` makes of each row, and the error at the end
pub record Rows (V : Type 0) : Type 0 where
  pub columns : Answer (List Text)
  pub scanned : List (Answer (List V))
  pub end_error : Option Text

pub record Pool (V : Type 0) : Type 0 where
  pub on_query : List Call → Text → Answer (Rows V)
  pub on_exec : List Call → Text → Answer ℕ

abbrev pub Row : Type 0 → Type 0
Row V = List (Text × V)

-- `strings.TrimSuffix(s, b)` for one byte
unfoldable pub trim_suffix : ℕ → Text → Text
trim_suffix b [] = []
trim_suffix b (c ∷ []) = if c == b then [] else c ∷ []
trim_suffix b (c ∷ d ∷ s) = c ∷ trim_suffix b (d ∷ s)

-- the statement without white space and a last semicolon
unfoldable pub prepare : Text → Text
unfolding trim_space trim_suffix
prepare sql = trim_space (trim_suffix b';' (trim_space sql))

unfoldable pub wrap : Text → ℕ → Text
unfolding decimal
wrap sql max_rows = codes "SELECT * FROM (" ++ (sql ++ (codes ") AS _q LIMIT " ++ decimal max_rows))

abbrev pub outcome {ℓ} : {A : Type ℓ} → Answer A → Outcome A
outcome (ok a) = done a
outcome (err e) = fail (database e)

module _ {V : Type 0} where
  -- `row[col] = vals[i]` for each column
  unfoldable pub fill_row : List Text → List V → Row V → Row V
  unfolding put
  fill_row [] vals row = row
  fill_row (col ∷ cols) [] row = row
  fill_row (col ∷ cols) (v ∷ vals) row = fill_row cols vals (put col v row)

  -- the loop over `rows.Next()`, up to the first row that `Scan` refuses
  unfoldable pub scan_rows : List Text → List (Answer (List V)) → Answer (List (Row V))
  unfolding fill_row
  scan_rows cols [] = ok []
  scan_rows cols (err e ∷ rest) = err e
  scan_rows cols (ok vals ∷ rest) = elim (scan_rows cols rest) [
    | ok out ↦ ok (fill_row cols vals [] ∷ out)
    | err e ↦ err e
  ]

  -- the rows, unless iterating them ended in an error
  unfoldable pub end_rows : Option Text → Answer (List (Row V)) → Answer (List (Row V))
  end_rows e (err e') = err e'
  end_rows none (ok out) = ok out
  end_rows (some e) (ok out) = err e

  unfoldable pub read_columns : Rows V → Answer (List Text) → Answer (List (Row V))
  unfolding scan_rows end_rows
  read_columns rows (err e) = err e
  read_columns rows (ok cols) = end_rows rows.end_error (scan_rows cols rows.scanned)

  unfoldable pub read_rows : Answer (Rows V) → Answer (List (Row V))
  unfolding read_columns
  read_rows (err e) = err e
  read_rows (ok rows) = read_columns rows rows.columns

  -- the call of the pool in `QueryRows`, behind the check
  unfoldable pub query_checked :
      Option Text → Pool V → Text → ℕ → List Call → Outcome (List (Row V)) × List Call
  unfolding read_rows wrap
  query_checked (some keyword) pool sql max_rows log = (fail (not_read_only keyword), log)
  query_checked none pool sql max_rows log = (
    outcome (read_rows (pool.on_query log (wrap sql max_rows))),
    log ++ (query (wrap sql max_rows) ∷ []),
  )

  -- `QueryRows`
  unfoldable pub query_rows : Pool V → Text → ℕ → List Call → Outcome (List (Row V)) × List Call
  unfolding prepare is_read_only_sql query_checked
  query_rows pool sql max_rows log =
      query_checked (is_read_only_sql (prepare sql)) pool (prepare sql) max_rows log

  -- `ExecuteWrite`
  unfoldable pub execute_write : Pool V → Text → List Call → Outcome ℕ × List Call
  unfolding prepare
  execute_write pool sql log =
      (outcome (pool.on_exec log (prepare sql)), log ++ (exec (prepare sql) ∷ []))
