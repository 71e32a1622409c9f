-- ===== src/Handlers/Upload/Inserts.antt =====
-- internal/handlers/data.go: the calls of `executeMySQLInsert`.
use data_flow_agent_hub.Base.{
  ℕ, ◌+◌, Text, List, [], ◌∷◌, ◌++◌, append_assoc, append-nil, sym, ap, ◌∙◌, ◌≡◌, refl, arith, All,
  All-append,
}
use data_flow_agent_hub.Sqlrun.Run.{Answer, ok, err}
use data_flow_agent_hub.Handlers.Upload.{
  InsertCall, Database, Imported, imported, row_failed, after_row, insert_rows, insert_sql,
  execute_mysql_insert,
}

-- the calls for some rows
abbrev pub row_calls : Text → List (List Text) → List InsertCall
row_calls sql [] = []
row_calls sql (row ∷ rows) = record { sql = sql; args = row } ∷ row_calls sql rows

-- The database accepts some calls behind others, for a number of rows in all.
pub data Accepts (db : Database) : List InsertCall → List InsertCall → ℕ → Type 0 where
  none_sent : {log : List InsertCall} → Accepts db log [] 0
  sent :
      {log : List InsertCall} {n m : ℕ} {call : InsertCall} {calls : List InsertCall}
      → db log call ≡ ok n
      → Accepts db (log ++ (call ∷ [])) calls m
      → Accepts db log (call ∷ calls) (n + m)

-- How an import ended: the database accepted all rows, or it accepted those before a row that it
-- refused.
pub data Ended (db : Database) (sql : Text) (rows : List (List Text)) (log : List InsertCall)
    (start : ℕ) (out : Imported × List InsertCall) : Type 0 where
  all_sent :
      (total : ℕ)
      → Accepts db log (row_calls sql rows) total
      → out ≡ (imported (start + total), log ++ row_calls sql rows)
      → Ended db sql rows log start out
  stopped_at :
      (before after : List (List Text)) (row : List Text) (total : ℕ) (e : Text)
      → rows ≡ before ++ (row ∷ after)
      → Accepts db log (row_calls sql before) total
      → db (log ++ row_calls sql before) (record { sql = sql; args = row }) ≡ err e
      → out ≡ (
        row_failed (start + total) e,
        (log ++ row_calls sql before) ++ (record { sql = sql; args = row } ∷ []),
      )
      → Ended db sql rows log start out

module _ (db : Database) (sql : Text) where
  Ended-cons :
      (row : List Text) (rows : List (List Text)) (log : List InsertCall) (start n : ℕ)
      (out : Imported × List InsertCall)
      → db log (record { sql = sql; args = row }) ≡ ok n
      → Ended db sql rows (log ++ (record { sql = sql; args = row } ∷ [])) (start + n) out
      → Ended db sql (row ∷ rows) log start out
  Ended-cons row rows log start n out accepted (all_sent total accepts e) =
      all_sent (n + total) (sent accepted accepts) (
        e
        ∙ ap
            (λ k.
              (imported k, (log ++ (record { sql = sql; args = row } ∷ [])) ++ row_calls sql rows))
            (omega arith)
        ∙ ap (λ l. (imported (start + (n + total)), l)) (append_assoc log _ (row_calls sql rows)))
  Ended-cons row rows log start n out accepted
        (stopped_at before after r total e is accepts refuses o) =
      let call : InsertCall = record { sql = sql; args = row } in
      let shift = append_assoc log (call ∷ []) (row_calls sql before) in
      stopped_at (row ∷ before) after r (n + total) e (ap (◌∷◌ row) is) (sent accepted accepts)
        (ap (λ l. db l (record { sql = sql; args = r })) (sym shift) ∙ refuses)
        (o
          ∙ ap
              (λ k. (
                row_failed k e,
                ((log ++ (call ∷ [])) ++ row_calls sql before)
                    ++ (record { sql = sql; args = r } ∷ []),
              ))
              (omega arith)
          ∙ ap
              (λ l.
                (row_failed (start + (n + total)) e, l ++ (record { sql = sql; args = r } ∷ [])))
              shift)

  after_row-Ended :
      (a : Answer ℕ) (row : List Text) (rows : List (List Text)) (total : ℕ) (log : List InsertCall)
      (next : ℕ → Imported × List InsertCall)
      → db log (record { sql = sql; args = row }) ≡ a
      → ((k : ℕ) → Ended db sql rows (log ++ (record { sql = sql; args = row } ∷ [])) k (next k))
      → Ended db sql
          (row ∷ rows)
          log
          total
          (after_row a total (log ++ (record { sql = sql; args = row } ∷ [])) next)
  unfolding after_row
  after_row-Ended (err e) row rows total log next answer h =
      stopped_at [] rows row 0 e refl none_sent
        (ap (λ l. db l (record { sql = sql; args = row })) (append-nil log) ∙ answer)
        (ap (λ k. (row_failed k e, log ++ (record { sql = sql; args = row } ∷ []))) (omega arith)
          ∙ ap (λ l. (row_failed (total + 0) e, l ++ (record { sql = sql; args = row } ∷ [])))
              (sym (append-nil log)))
  after_row-Ended (ok n) row rows total log next answer h =
      Ended-cons row rows log total n _ answer (h (total + n))

  insert_rows-Ended :
      (rows : List (List Text)) (total : ℕ) (log : List InsertCall)
      → Ended db sql rows log total (insert_rows db sql rows total log)
  unfolding insert_rows
  insert_rows-Ended [] total log = all_sent 0 none_sent (
      ap (λ k. (imported k, log)) (omega arith)
      ∙ ap (λ l. (imported (total + 0), l)) (sym (append-nil log)))
  insert_rows-Ended (row ∷ rows) total log =
      after_row-Ended (db log (record { sql = sql; args = row })) row rows total log _ refl
        (λ k. insert_rows-Ended rows k (log ++ (record { sql = sql; args = row } ∷ [])))

-- every call that is added has the statement
abbrev pub Sends : Text → List InsertCall → Imported × List InsertCall → Type 0
Sends sql log out =
    (calls : List InsertCall) × (out.1 ≡ log ++ calls) × All (λ (c : InsertCall). c.sql ≡ sql) calls

row_calls-All :
    (sql : Text) (rows : List (List Text))
    → All (λ (c : InsertCall). c.sql ≡ sql) (row_calls sql rows)
row_calls-All sql [] = tt
row_calls-All sql (row ∷ rows) = (refl, row_calls-All sql rows)

pub Ended-Sends :
    (db : Database) (sql : Text) (rows : List (List Text)) (log : List InsertCall) (start : ℕ)
    (out : Imported × List InsertCall)
    → Ended db sql rows log start out
    → Sends sql log out
Ended-Sends db sql rows log start out (all_sent total accepts o) =
    (row_calls sql rows, ap (λ (x : Imported × List InsertCall). x.1) o, row_calls-All sql rows)
Ended-Sends db sql rows log start out (stopped_at before after row total e is accepts refuses o) = (
  row_calls sql before ++ (record { sql = sql; args = row } ∷ []),
  ap (λ (x : Imported × List InsertCall). x.1) o ∙ append_assoc log (row_calls sql before) _,
  All-append (λ (c : InsertCall). c.sql ≡ sql) (row_calls sql before) _ (row_calls-All sql before)
      (refl, tt),
)

-- An import sends the rows of the file in their order, one call for each row with the statement for
-- its columns. Either the database accepts them all, and the import succeeds with the sum of the
-- numbers that it answers; or the database accepts the rows before some row and refuses this one,
-- and then the import stops there with the error of the database and the sum so far. The rows that were
-- accepted stay.
pub execute_mysql_insert-Ended :
    (db : Database) (table : Text) (cols : List Text) (rows : List (List Text))
    (col_map : List (Text × Text)) (log : List InsertCall)
    → Ended db
        (insert_sql table cols col_map)
        rows
        log
        0
        (execute_mysql_insert db table cols rows col_map log)
unfolding execute_mysql_insert
execute_mysql_insert-Ended db table cols rows col_map log =
    insert_rows-Ended db (insert_sql table cols col_map) rows 0 log
