-- ===== src/Handlers/Tables/Rows.antt =====
-- internal/handlers/tables.go: the tables of the data sets and their fields as rows. Rows stand in the order
-- of their creation. What the database, `mysqlmgr` and the new identifiers are during one request is
-- a parameter; rows that do not scan, and times, are left out.
use data_flow_agent_hub.Base.{
  ℕ, Text, codes, same, ℤ, List, [], ◌∷◌, Bool, true, not, ◌&&◌, Option, none, some, if◌then◌else◌,
}
use data_flow_agent_hub.Rbac.{is_data_admin, is_super_admin}
use data_flow_agent_hub.Sqlrun.Run.{Answer}
use data_flow_agent_hub.Mysqlmgr.Ddl.{FieldDef, FieldError, Server}
use data_flow_agent_hub.Handlers.Users.{Claims}

-- `dataset_tables` and `table_fields`
pub record DatasetTable : Type 0 where
  pub dataset_id : Text
  pub name : Text
  pub display_name : Text
  pub mysql_table_name : Text
  pub status : Text
  pub created_by : Text

pub record TableField : Type 0 where
  pub id : Text
  pub table_id : Text
  pub name : Text
  pub field_type : Text
  pub field_length : Option ℤ
  pub is_nullable : Bool
  pub ordinal_position : ℕ

-- the two tables, and the statements that the databases of the data sets have got
pub record Store : Type 0 where
  pub tables : List (Text × DatasetTable)
  pub fields : List TableField
  pub statements : List Text

pub record Backend : Type 0 where
  pub new_table : Text  -- `uuid.NewString()` of the table, and of each field
  pub new_field : ℕ → Text
  pub new_mysql_name : Text  -- `generateMySQLTableName()`
  pub pool : Answer ℕ
  pub server : Server
  pub count_fails : Bool
  pub select_fails : Bool
  pub fields_fail : Bool
  pub update_fails : Bool
  pub begin_fails : Bool
  pub table_fails : Bool
  pub field_fails : ℕ → Bool
  pub commit_fails : Bool
  pub error_text : FieldError → Text

-- the body of `CreateDatasetTable`
pub record NewTable : Type 0 where
  pub name : Text
  pub display_name : Text
  pub fields : List FieldDef

pub data Replied : Type 0 where
  refused : ℕ → Text → Replied
  tables_listed : List (Text × DatasetTable) → Replied
  table_shown : Text → DatasetTable → List TableField → Replied
  fields_listed : List TableField → Replied
  table_created : Text → Text → Text → ℕ → Replied
  table_deleted : Replied

-- `status = 'active'`, of a data set
unfoldable pub is_active_in : Text → DatasetTable → Bool
is_active_in dataset t = same t.dataset_id dataset && same t.status (codes "active")

unfoldable pub active_tables : Text → List (Text × DatasetTable) → List (Text × DatasetTable)
active_tables dataset [] = []
active_tables dataset ((id, t) ∷ tables) =
    let rest = active_tables dataset tables in
    if is_active_in dataset t then (id, t) ∷ rest else rest

unfoldable pub fields_of : Text → List TableField → List TableField
fields_of table [] = []
fields_of table (f ∷ fields) =
    let rest = fields_of table fields in if same f.table_id table then f ∷ rest else rest

-- `c == nil || !rbac.IsDataAdmin(c.Role) && !rbac.IsSuperAdmin(c.Role)`
unfoldable pub refused_caller : Option Claims → Bool
refused_caller none = true
refused_caller (some c) = not (is_data_admin c.role) && not (is_super_admin c.role)

unfoldable pub user_of : Option Claims → Text × Text
user_of none = ([], [])
user_of (some c) = (c.user_id, c.role)
