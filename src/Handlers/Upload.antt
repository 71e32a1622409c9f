-- ===== src/Handlers/Upload.antt =====
-- internal/handlers/data.go: the import of a file into a table of a dataset. Parameters are what the
-- packages csv and excelize make of the bytes, the answer of the model about the columns, what
-- `mysqlmgr` answers, and the database of the dataset.
pub mod Files
pub mod Columns
pub mod Inserts
pub mod Examples
use data_flow_agent_hub.Base.{
  ℕ, ◌+◌, Text, codes, same, trim_space, to_lower, lookup, put, is_some, List, [], ◌∷◌, ◌++◌, Bool,
  true, false, not, Option, none, some, if◌then◌else◌,
}
use data_flow_agent_hub.Sqlrun.Classify.{insert}
use data_flow_agent_hub.Sqlrun.Permissions.{is_allowed_for_role}
use data_flow_agent_hub.Sqlrun.Run.{Answer, ok, err, Call, Pool}
use data_flow_agent_hub.Handlers.Users.{Claims}
use data_flow_agent_hub.Handlers.DataSql.{
  Catalog, has_dataset_access, SqlFileResult, execute_sql_file,
}
use data_flow_agent_hub.Handlers.DataSql.Parse.{join}
use data_flow_agent_hub.Handlers.Upload.Files.{
  ext, UploadForm, Multipart, parse_upload_form, ParseResult, parse_records,
}

-- `columnValidation`; the error of a column that is not found carries the column
pub record Validation : Type 0 where
  pub is_ok : Bool
  pub error : Text
  pub column_map : List (Text × Text)

-- `lc` of `basicColumnCheck`
unfoldable pub normal_name : Text → Text
normal_name column = to_lower (trim_space column)

unfoldable pub check_column : Bool → Text → Validation → Validation
check_column true uc rest = rest
check_column false uc rest = record { is_ok = false; error = uc; column_map = [] }

unfoldable pub check_columns : List Text → List (Text × Text) → List (Text × Text) → Validation
check_columns [] target cm = record { is_ok = true; error = []; column_map = cm }
check_columns (uc ∷ cols) target cm =
    check_column (is_some (lookup (normal_name uc) target)) uc
      (check_columns cols target (put uc (normal_name uc) cm))

-- `basicColumnCheck`
unfoldable pub basic_column_check : List Text → List (Text × Text) → Validation
basic_column_check upload_cols target_cols = check_columns upload_cols target_cols []

-- the columns of the statement of `executeMySQLInsert`
unfoldable pub mapped_name : List (Text × Text) → Text → Option Text → Text
mapped_name col_map c none = c
mapped_name col_map c (some mapped) = mapped

unfoldable pub target_columns : List (Text × Text) → List Text → List Text
target_columns col_map [] = []
target_columns col_map (c ∷ cols) =
    mapped_name col_map c (lookup c col_map) ∷ target_columns col_map cols

unfoldable pub placeholders : List Text → List Text
placeholders [] = []
placeholders (c ∷ cols) = codes "?" ∷ placeholders cols

unfoldable pub insert_sql : Text → List Text → List (Text × Text) → Text
insert_sql table cols col_map =
    codes "INSERT INTO `"
    ++ (table
        ++ (codes "` ("
            ++ (join (codes ", ") (target_columns col_map cols)
                ++ (codes ") VALUES (" ++ (join (codes ", ") (placeholders cols) ++ codes ")")))))

-- a call of `ExecContext` with arguments, and a database by its answers to them
pub record InsertCall : Type 0 where
  pub sql : Text
  pub args : List Text

abbrev pub Database : Type 0
Database = List InsertCall → InsertCall → Answer ℕ

-- the number of rows that are inserted, with the error that ends the loop
pub data Imported : Type 0 where
  imported : ℕ → Imported
  row_failed : ℕ → Text → Imported

-- the loop of `executeMySQLInsert` over the rows
unfoldable pub after_row :
    Answer ℕ → ℕ → List InsertCall → (ℕ → Imported × List InsertCall) → Imported × List InsertCall
after_row (err e) total log next = (row_failed total e, log)
after_row (ok n) total log next = next (total + n)

unfoldable pub insert_rows :
    Database → Text → List (List Text) → ℕ → List InsertCall → Imported × List InsertCall
insert_rows db sql [] total log = (imported total, log)
insert_rows db sql (row ∷ rows) total log =
    let call : InsertCall = record { sql = sql; args = row } in
    let log' = log ++ (call ∷ []) in
    after_row (db log call) total log' (λ sum. insert_rows db sql rows sum log')

-- `executeMySQLInsert`
unfoldable pub execute_mysql_insert :
    Database
    → Text
    → List Text
    → List (List Text)
    → List (Text × Text)
    → List InsertCall
    → Imported × List InsertCall
execute_mysql_insert db table cols rows col_map log =
    insert_rows db (insert_sql table cols col_map) rows 0 log

-- the map that `getDatasetTableFields` fills, by the rows that are scanned
unfoldable pub fill_fields : List (Text × Text) → List (Text × Text) → List (Text × Text)
fill_fields [] cols = cols
fill_fields ((name, ftype) ∷ fields) cols =
    fill_fields fields (put (to_lower name) (to_lower ftype) cols)

unfoldable pub some_fields : List (Text × Text) → Answer (List (Text × Text))
some_fields [] = err (codes "table has no fields defined")
some_fields (f ∷ cols) = ok (f ∷ cols)

unfoldable pub get_dataset_table_fields : Answer (List (Text × Text)) → Answer (List (Text × Text))
get_dataset_table_fields (err e) = err e
get_dataset_table_fields (ok fields) = some_fields (fill_fields fields [])

-- `validateColumns`, whose model is a parameter, with the check that stands in when it fails
unfoldable pub validate_or_check :
    Option (Answer Validation) → List Text → List (Text × Text) → Validation
validate_or_check none cols target = basic_column_check cols target
validate_or_check (some (err e)) cols target = basic_column_check cols target
validate_or_check (some (ok v)) cols target = v

-- the replies of the upload
pub data UploadReply : Type 0 where
  refused : ℕ → Text → UploadReply
  ran_file : SqlFileResult → UploadReply
  failed_import : ℕ → Text → UploadReply
  rows_affected : ℕ → Validation → UploadReply

pub record Site (V : Type 0) : Type 0 where
  pub catalog : Catalog
  pub table_name : Text → Text → Option Text  -- of a table of a dataset that is active
  pub pool : Text → Answer (Pool V)  -- `GetPool`, or else `Connect`
  pub database : Database
  pub read_csv : Text → Answer (List (List Text))
  pub read_xlsx : Text → Answer (List (List Text))
  pub fields : Text → Answer (List (Text × Text))
  pub model : List Text → List (Text × Text) → Option (Answer Validation)

-- what an upload sends to the database of the dataset: statements, and inserts with arguments
abbrev pub Logs : Type 0
Logs = List Call × List InsertCall

unfoldable pub import_reply : Validation → Imported → UploadReply
import_reply v (imported n) = rows_affected n v
import_reply v (row_failed n e) = failed_import (n + 1) e

module _ {V : Type 0} (site : Site V) where
  unfoldable pub run_import : Text → ParseResult → Validation → Logs → UploadReply × Logs
  run_import table p v (calls, log) =
      let (out, log') =
        execute_mysql_insert site.database table p.columns p.rows v.column_map log in
      if v.is_ok then (import_reply v out, (calls, log')) else (refused 400 v.error, (calls, log))

  unfoldable pub with_fields :
      Text → ParseResult → Answer (List (Text × Text)) → Logs → UploadReply × Logs
  with_fields table p (err e) logs = (refused 400 (codes "cannot read table fields: " ++ e), logs)
  with_fields table p (ok target) logs =
      run_import table p (validate_or_check (site.model p.columns target) p.columns target) logs

  unfoldable pub with_parsed : UploadForm → Text → Answer ParseResult → Logs → UploadReply × Logs
  with_parsed form table (err e) logs = (refused 400 (codes "file parse failed: " ++ e), logs)
  with_parsed form table (ok p) logs =
      with_fields table p (get_dataset_table_fields (site.fields form.table_id)) logs

  unfoldable pub by_extension : UploadForm → Text → Text → Pool V → Logs → UploadReply × Logs
  by_extension form table extension pool (calls, log) =
      let (out, calls') = execute_sql_file pool form.file_data calls in
      if same extension (codes ".sql")
      then (ran_file out, (calls', log))
      else if same extension (codes ".csv")
      then with_parsed form table
          (parse_records (codes "CSV file is empty") (site.read_csv form.file_data)) (calls, log)
      else if same extension (codes ".xlsx")
      then with_parsed form table
          (parse_records (codes "XLSX file is empty") (site.read_xlsx form.file_data)) (calls, log)
      else (
        refused 400 (codes "unsupported file type, only .csv / .xlsx / .sql are supported"),
        (calls, log),
      )

  unfoldable pub with_pool : UploadForm → Text → Answer (Pool V) → Logs → UploadReply × Logs
  with_pool form table (err e) logs =
      (refused 500 (codes "failed to connect to dataset database"), logs)
  with_pool form table (ok pool) logs =
      by_extension form table (to_lower (ext form.file_name)) pool logs

  unfoldable pub with_table : UploadForm → Option Text → Logs → UploadReply × Logs
  with_table form none logs = (refused 404 (codes "table not found in dataset"), logs)
  with_table form (some table) logs = with_pool form table (site.pool form.dataset_id) logs

  -- `uploadToDataset`
  unfoldable pub upload_to_dataset : Claims → UploadForm → Logs → UploadReply × Logs
  upload_to_dataset c form logs =
      if has_dataset_access site.catalog c.user_id form.dataset_id c.role
      then with_table form (site.table_name form.dataset_id form.table_id) logs
      else (refused 403 (codes "no access to this dataset"), logs)

  unfoldable pub upload_form : Claims → Answer UploadForm → Logs → UploadReply × Logs
  upload_form c (err e) logs = (refused 400 e, logs)
  upload_form c (ok form) logs = upload_to_dataset c form logs

  -- `UploadData`
  unfoldable pub upload_data : Option Claims → Multipart → Logs → UploadReply × Logs
  upload_data none m logs = (refused 401 (codes "unauthorized"), logs)
  upload_data (some c) m logs =
      if is_some (is_allowed_for_role insert c.role)
      then (refused 403 (codes "insufficient permissions to import data"), logs)
      else upload_form c (parse_upload_form m) logs
