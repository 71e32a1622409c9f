-- ===== src/Handlers/Tables.antt =====
-- internal/handlers/tables.go: how the tables of a data set and their fields are shown, and a table deleted.
pub mod Rows
pub mod Create
pub mod Atomic
pub mod Listing
pub mod Examples
use data_flow_agent_hub.Base.{
  Text, codes, same, lookup, List, [], ◌∷◌, Bool, true, false, not, ◌||◌, Option, none, some,
  if◌then◌else◌,
}
use data_flow_agent_hub.Mysqlmgr.Ddl.{drop_table}
use data_flow_agent_hub.Handlers.Users.{Claims}
use data_flow_agent_hub.Handlers.DataSql.{Dataset, Catalog, has_dataset_access}
use data_flow_agent_hub.Handlers.Tables.Rows.{
  DatasetTable, TableField, Store, Backend, Replied, refused, tables_listed, table_shown,
  fields_listed, table_deleted, is_active_in, active_tables, fields_of, refused_caller,
}

-- the caller and the access of the handlers that read
unfoldable pub with_access : Option Claims → Catalog → Text → Replied → Replied
with_access none cat dataset rest = refused 401 (codes "unauthorized")
with_access (some c) cat dataset rest =
    if same dataset []
    then refused 400 (codes "missing dataset id")
    else if not (has_dataset_access cat c.user_id dataset c.role)
    then refused 403 (codes "no access to this dataset")
    else rest

-- `ListDatasetTables`
unfoldable pub list_dataset_tables : Backend → Option Claims → Catalog → Text → Store → Replied
list_dataset_tables back claims cat dataset s = with_access claims cat dataset (
    if back.select_fails
    then refused 500 (codes "db error")
    else tables_listed (active_tables dataset s.tables))

-- the handlers with two identifiers
unfoldable pub with_table_access : Option Claims → Catalog → Text → Text → Replied → Replied
with_table_access none cat dataset table rest = refused 401 (codes "unauthorized")
with_table_access (some c) cat dataset table rest =
    if same dataset [] || same table []
    then refused 400 (codes "missing dataset id or table id")
    else if not (has_dataset_access cat c.user_id dataset c.role)
    then refused 403 (codes "no access to this dataset")
    else rest

unfoldable pub find_active : Text → Option DatasetTable → Option DatasetTable
find_active dataset none = none
find_active dataset (some t) = if is_active_in dataset t then some t else none

unfoldable pub show_table : Backend → Text → Option DatasetTable → List TableField → Replied
show_table back table none fields = refused 404 (codes "table not found")
show_table back table (some t) fields =
    if back.select_fails
    then refused 404 (codes "table not found")
    else if back.fields_fail
    then refused 500 (codes "db error")
    else table_shown table t (fields_of table fields)

-- `GetDatasetTable`
unfoldable pub get_dataset_table : Backend → Option Claims → Catalog → Text → Text → Store → Replied
get_dataset_table back claims cat dataset table s =
    with_table_access claims cat dataset table
      (show_table back table (find_active dataset (lookup table s.tables)) s.fields)

-- `ListFields`
unfoldable pub list_fields : Backend → Option Claims → Catalog → Text → Text → Store → Replied
list_fields back claims cat dataset table s = with_table_access claims cat dataset table (
    if back.fields_fail
    then refused 500 (codes "db error")
    else fields_listed (fields_of table s.fields))

-- `UPDATE dataset_tables SET status = 'inactive' WHERE id = ?`
unfoldable pub deactivate_row : Bool → DatasetTable → DatasetTable
deactivate_row true t = record t { status = codes "inactive" }
deactivate_row false t = t

unfoldable pub deactivate : Text → List (Text × DatasetTable) → List (Text × DatasetTable)
deactivate table [] = []
deactivate table ((id, t) ∷ tables) =
    (id, deactivate_row (same id table) t) ∷ deactivate table tables

-- behind `DropTable`, whose error is only logged
unfoldable pub mark_inactive : Backend → Text → Store → Replied × Store
mark_inactive back table s =
    if back.update_fails
    then (refused 500 (codes "db error"), s)
    else (table_deleted, record s { tables = deactivate table s.tables })

-- the row that joins with a data set
unfoldable pub delete_found :
    Backend → Text → Option DatasetTable → Option Dataset → Store → Replied × Store
delete_found back table (some t) (some d) s =
    mark_inactive back table (record s {
      statements = (drop_table back.pool back.server t.mysql_table_name s.statements).1;
    })
delete_found back table found joined s = (refused 404 (codes "table not found"), s)

-- `DeleteDatasetTable`
unfoldable pub delete_dataset_table :
    Backend → Option Claims → Catalog → Text → Text → Store → Replied × Store
delete_dataset_table back claims cat dataset table s =
    if refused_caller claims
    then (refused 403 (codes "requires data_admin or above"), s)
    else if same dataset [] || same table []
    then (refused 400 (codes "missing dataset id or table id"), s)
    else if back.select_fails
    then (refused 404 (codes "table not found"), s)
    else delete_found back table (find_active dataset (lookup table s.tables))
        (lookup dataset cat.datasets) s
