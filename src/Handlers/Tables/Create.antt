-- ===== src/Handlers/Tables/Create.antt =====
-- internal/handlers/tables.go: `CreateDatasetTable`.
use data_flow_agent_hub.Base.{
  ℕ, suc, ◌+◌, Text, codes, same, trim_space, to_upper, lookup, length, is_positive, ltb, ◌==◌,
  List, [], ◌∷◌, ◌++◌, not, ◌&&◌, ◌||◌, Option, none, some, if◌then◌else◌,
}
use data_flow_agent_hub.Mysqlmgr.Ddl.{FieldDef, FieldError, validate_fields, DdlError, create_table}
use data_flow_agent_hub.Handlers.Users.{Claims}
use data_flow_agent_hub.Handlers.DataSql.{Catalog, has_dataset_access, not_deleted}
use data_flow_agent_hub.Handlers.Tables.Rows.{
  DatasetTable, TableField, Store, Backend, NewTable, Replied, refused, table_created, is_active_in,
  refused_caller, user_of,
}

-- the count of active tables of a name
unfoldable pub count_names : Text → Text → List (Text × DatasetTable) → ℕ
count_names dataset name [] = 0
count_names dataset name ((id, t) ∷ tables) =
    let n = count_names dataset name tables in
    if is_active_in dataset t && same t.name name then suc n else n

-- the inserts of the transaction
unfoldable pub new_row : Backend → Text → Text → NewTable → Text × DatasetTable
new_row back user dataset body = (
  back.new_table,
  record {
    dataset_id = dataset;
    name = body.name;
    display_name = body.display_name;
    mysql_table_name = back.new_mysql_name;
    status = codes "active";
    created_by = user;
  },
)

unfoldable pub field_row : Backend → ℕ → FieldDef → TableField
field_row back i f = record {
  id = back.new_field i;
  table_id = back.new_table;
  name = f.name;
  field_type = to_upper f.field_type;
  field_length = if is_positive f.field_len then some f.field_len else none;
  is_nullable = f.is_nullable;
  ordinal_position = i + 1;
}

unfoldable pub add_field : TableField → Option (List TableField) → Option (List TableField)
add_field f none = none
add_field f (some rows) = some (f ∷ rows)

unfoldable pub field_rows : Backend → ℕ → List FieldDef → Option (List TableField)
field_rows back i [] = some []
field_rows back i (f ∷ fields) =
    let rest = add_field (field_row back i f) (field_rows back (suc i) fields) in
    if back.field_fails i then none else rest

unfoldable pub commit :
    Backend → Text → Text → NewTable → Option (List TableField) → Store → Replied × Store
commit back user dataset body none s = (refused 500 (codes "failed to create field metadata"), s)
commit back user dataset body (some rows) s =
    if back.commit_fails then (refused 500 (codes "db error"), s) else (
      table_created back.new_table body.name back.new_mysql_name (length body.fields),
      record s {
        tables = s.tables ++ (new_row back user dataset body ∷ []);
        fields = s.fields ++ rows;
      },
    )

unfoldable pub write_metadata : Backend → Text → Text → NewTable → Store → Replied × Store
write_metadata back user dataset body s =
    if back.begin_fails
    then (refused 500 (codes "db error"), s)
    else if back.table_fails
    then (refused 500 (codes "failed to create table metadata"), s)
    else commit back user dataset body (field_rows back 0 body.fields) s

-- behind `mgr.CreateTable`, with the statements that it has sent
unfoldable pub after_create :
    Backend → Text → Text → NewTable → Option DdlError × List Text → Store → Replied × Store
after_create back user dataset body (some e, statements) s =
    (refused 500 (codes "failed to create table in mysql"), record s { statements = statements })
after_create back user dataset body (none, statements) s =
    write_metadata back user dataset body (record s { statements = statements })

unfoldable pub create_valid :
    Backend → Text → Text → NewTable → Option FieldError → Store → Replied × Store
create_valid back user dataset body (some e) s = (refused 400 (back.error_text e), s)
create_valid back user dataset body none s =
    after_create back user dataset body
      (create_table back.pool back.server back.new_mysql_name body.fields s.statements) s

unfoldable pub create_named : Backend → Catalog → Text → Text → NewTable → Store → Replied × Store
create_named back cat user dataset body s =
    if same body.name []
    then (refused 400 (codes "name is required"), s)
    else if length body.fields == 0
    then (refused 400 (codes "at least one field is required"), s)
    else if back.select_fails || not (not_deleted (lookup dataset cat.datasets))
    then (refused 404 (codes "dataset not found"), s)
    else if not back.count_fails && ltb 0 (count_names dataset body.name s.tables)
    then (refused 409 (codes "table name already exists in this dataset"), s)
    else create_valid back user dataset body (validate_fields body.fields) s

unfoldable pub create_body :
    Backend → Catalog → Text → Text → Option NewTable → Store → Replied × Store
create_body back cat user dataset none s = (refused 400 (codes "invalid json"), s)
create_body back cat user dataset (some body) s =
    create_named back cat user dataset (record body { name = trim_space body.name }) s

-- `CreateDatasetTable`
unfoldable pub create_dataset_table :
    Backend → Option Claims → Catalog → Text → Option NewTable → Store → Replied × Store
create_dataset_table back claims cat dataset body s =
    if refused_caller claims
    then (refused 403 (codes "requires data_admin or above"), s)
    else if same dataset []
    then (refused 400 (codes "missing dataset id"), s)
    else if not (has_dataset_access cat (user_of claims).0 dataset (user_of claims).1)
    then (refused 403 (codes "no access to this dataset"), s)
    else create_body back cat (user_of claims).0 dataset body s
