-- ===== src/Handlers/Upload/Files.antt =====
-- internal/handlers/data.go: the form of an upload, the records of its file and the JSON in an answer of the model.
-- Parameters are the multipart reader and what the packages csv and excelize make of the bytes.
use data_flow_agent_hub.Base.{
  ℕ, zero, suc, Text, codes, same, trim_space, has_prefix, index, drop, any, ◌==◌, List, [], ◌∷◌,
  Bool, not, ◌&&◌, Option, none, some, if◌then◌else◌,
}
use data_flow_agent_hub.Sqlrun.Run.{Answer, ok, err}

-- `filepath.Ext`
unfoldable pub ext : Text → Text
ext [] = []
ext (c ∷ s) =
    let rest = ext s in
    if not (same rest [])
    then rest
    else if any (λ d. d == b'/') s
    then []
    else if c == b'.'
    then c ∷ s
    else []

-- `uploadForm`, without the operation and the hint, which only the model sees
pub record UploadForm : Type 0 where
  pub file_data : Text
  pub file_name : Text
  pub dataset_id : Text
  pub table_id : Text

-- `parseUploadForm` on what the multipart reader gives: the file, and the values of the fields
pub record Multipart : Type 0 where
  pub parsed : Bool
  pub file : Option (Text × Answer Text)  -- its name, and its bytes
  pub operation : Text
  pub dataset_id : Text
  pub table_id : Text

unfoldable pub operation_of : Text → Text
operation_of op = if same op [] then codes "insert" else op

unfoldable pub read_file : Multipart → Text → Answer Text → Answer UploadForm
read_file m name (err e) = err (codes "failed to read file")
read_file m name (ok file_data) =
    let op = operation_of (trim_space m.operation) in
    if not (same op (codes "insert")) && not (same op (codes "update"))
    then err (codes "operation must be insert or update")
    else ok (record {
      file_data = file_data;
      file_name = name;
      dataset_id = trim_space m.dataset_id;
      table_id = trim_space m.table_id;
    })

unfoldable pub form_file : Multipart → Option (Text × Answer Text) → Answer UploadForm
form_file m none = err (codes "missing file field")
form_file m (some (name, bytes)) = read_file m name bytes

unfoldable pub parse_upload_form : Multipart → Answer UploadForm
parse_upload_form m =
    if m.parsed then form_file m m.file else err (codes "file too large or parse failed")

-- `parseResult`, and the end of `parseCSV` and `parseXLSX` on the records that the packages read
pub record ParseResult : Type 0 where
  pub columns : List Text
  pub rows : List (List Text)

unfoldable pub parse_records : Text → Answer (List (List Text)) → Answer ParseResult
parse_records empty (err e) = err e
parse_records empty (ok []) = err empty
parse_records empty (ok (cols ∷ rows)) = ok (record { columns = cols; rows = rows })

-- `strings.HasSuffix(s, "```")` with the text before it
unfoldable pub strip_suffix : Text → Text
strip_suffix [] = []
strip_suffix (c ∷ s) = if same (c ∷ s) (codes "```") then [] else c ∷ strip_suffix s

-- the text behind the first line, if there is one and the break is not at its start
unfoldable pub behind_line : Text → Option ℕ → Text
behind_line s none = drop 3 s
behind_line s (some zero) = drop 3 s
behind_line s (some (suc n)) = drop (suc (suc n)) s

-- `extractJSON`
unfoldable pub extract_json : Text → Text
extract_json s =
    let t = trim_space s in
    trim_space (
      if has_prefix t (codes "```") then strip_suffix (behind_line t (index t (codes "\n"))) else t)
