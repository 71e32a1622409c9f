-- ===== src/Handlers/Upload/Examples.antt =====
-- Imports of files.
use data_flow_agent_hub.Base.{
  Text, codes, same, has_prefix, index, lookup, to_lower, trim_space, List, [], ◌∷◌, All, true, ◌≡◌,
  refl, ◌==◌, if◌then◌else◌, length,
}
use data_flow_agent_hub.Sqlrun.Run.{ok, err}
use data_flow_agent_hub.Handlers.Upload.Files.{ext, extract_json, behind_line, strip_suffix}
use data_flow_agent_hub.Handlers.Upload.{
  Database, basic_column_check, check_columns, check_column, normal_name, insert_sql,
  execute_mysql_insert,
}
use data_flow_agent_hub.Handlers.Upload.Columns.{
  IsField, normal_names, insert_of, basic_column_check-IsField,
}
use data_flow_agent_hub.Handlers.Upload.Inserts.{Ended, Sends, execute_mysql_insert-Ended}

abbrev fields : List (Text × Text)
fields = (codes "id", codes "int") ∷ (codes "name", codes "text") ∷ []

abbrev columns : List Text
columns = codes " ID " ∷ codes "Name" ∷ []

csv_ext : ext (codes "a.b/report.csv") ≡ codes ".csv"
unfolding ext same
csv_ext = refl

no_ext : ext (codes "a.b/report") ≡ []
unfolding ext same
no_ext = refl

fenced : extract_json (codes "```json\n{}\n```") ≡ codes "{}"
unfolding extract_json trim_space behind_line strip_suffix same has_prefix index
fenced = refl

accepted : (basic_column_check columns fields).is_ok ≡ true
unfolding basic_column_check check_columns check_column normal_name lookup same to_lower trim_space
accepted = refl

-- refuses the second call
abbrev once : Database
once = λ log call. if length log == 1 then err (codes "duplicate key") else ok 1

abbrev rows : List (List Text)
rows =
    (codes "1" ∷ codes "a" ∷ []) ∷ (codes "1" ∷ codes "b" ∷ []) ∷ (codes "2" ∷ codes "c" ∷ []) ∷ []

execute_mysql_insert-Ended_example :
    Ended once
      (insert_sql (codes "t") columns [])
      rows
      []
      0
      (execute_mysql_insert once (codes "t") columns rows [] [])
execute_mysql_insert-Ended_example = execute_mysql_insert-Ended once (codes "t") columns rows [] []

basic_column_check-IsField_example :
    All (IsField fields) (normal_names columns)
    × Sends (insert_of (codes "t") (normal_names columns)) [] (
        execute_mysql_insert once
          (codes "t")
          columns
          rows
          (basic_column_check columns fields).column_map
          [])
basic_column_check-IsField_example =
    basic_column_check-IsField once (codes "t") columns fields rows [] accepted
