-- ===== src/Migrate.antt =====
-- internal/migrate: `Up`, which applies the embedded files that are not yet applied. What the database
-- answers is a parameter, and so is the order of `sort.Strings`.
pub mod Again
pub mod Examples
use data_flow_agent_hub.Base.{
  Text, codes, same, trim_space, any, List, [], ◌∷◌, ◌++◌, Option, none, some, if◌then◌else◌,
}

-- the versions in `schema_migrations`, and the statements that were executed
pub record Schema : Type 0 where
  pub versions : List Text
  pub executed : List Text

pub record Backend : Type 0 where
  pub create_fails : Option Text
  pub query_fails : Option Text
  -- what the iteration over the versions gives, which may end early, or the error of `Scan`
  pub read : List Text → List Text × Option Text
  pub exec_fails : Text → Option Text
  pub record_fails : Text → Option Text

unfoldable pub record_version : Backend → Text → Schema → Option Text × Schema
record_version back name s = elim (back.record_fails name) [
  | some e ↦ (some (codes "record migration " ++ (name ++ (codes ": " ++ e))), s)
  | none ↦ (none, record s { versions = name ∷ s.versions })
]

unfoldable pub execute_file : Backend → Text → Text → Schema → Option Text × Schema
execute_file back name sql s = elim (back.exec_fails name) [
  | some e ↦ (some (codes "migration " ++ (name ++ (codes ": " ++ e))), s)
  | none ↦ record_version back name (record s { executed = s.executed ++ (sql ∷ []) })
]

-- a round of the loop; `applied` is read before it
unfoldable pub apply_file : Backend → List Text → Text → Text → Schema → Option Text × Schema
apply_file back applied name file s =
    let sql = trim_space file in
    if any (λ v. same v name) applied
    then (none, s)
    else if same sql []
    then (none, s)
    else execute_file back name sql s

unfoldable pub apply_files :
    Backend → List Text → List (Text × Text) → Schema → Option Text × Schema
apply_files back applied [] s = (none, s)
apply_files back applied ((name, file) ∷ files) s =
    let (e, s') = apply_file back applied name file s in
    elim e [ some e ↦ (some e, s') | none ↦ apply_files back applied files s' ]

-- the loop, with the versions that were read; `rows.Err()` is not asked
unfoldable pub apply_read :
    Backend → List (Text × Text) → List Text × Option Text → Schema → Option Text × Schema
apply_read back files (applied, some e) s = (some e, s)
apply_read back files (applied, none) s = apply_files back applied files s

-- `Up`, for the files in the order of their names
unfoldable pub up : Backend → List (Text × Text) → Schema → Option Text × Schema
up back files s = elim back.create_fails [
  | some e ↦ (some (codes "create schema_migrations: " ++ e), s)
  | none ↦ elim back.query_fails [
    | some e ↦ (some (codes "query schema_migrations: " ++ e), s)
    | none ↦ apply_read back files (back.read s.versions) s
  ]
]
