-- ===== src/Handlers/Datasets/Databases.antt =====
-- internal/handlers/datasets.go: the creation and the deletion of a data set, with its database on the
-- server and its pool.
use data_flow_agent_hub.Base.{
  Text, codes, same, trim_space, lookup, is_some, List, [], ◌∷◌, ◌||◌, Option, none, some,
  if◌then◌else◌,
}
use data_flow_agent_hub.Mysqlmgr.{Manager, close}
use data_flow_agent_hub.Mysqlmgr.Ddl.{DdlError, create_database, drop_database}
use data_flow_agent_hub.Handlers.{Reply, err_json, json, guard}
use data_flow_agent_hub.Handlers.Users.{Claims, id_of}
use data_flow_agent_hub.Handlers.DataSql.{Dataset, Catalog}
use data_flow_agent_hub.Handlers.Datasets.{
  Backend, refused_caller, name_exists, ok_message, insert_dataset, set_dataset,
}

-- the tables, the statements that the server has got, and the pools
pub record State : Type 0 where
  pub catalog : Catalog
  pub statements : List Text
  pub manager : Manager

-- the inserts; when the first fails, the new database is dropped again
unfoldable pub insert_created : Backend → Text → Text → State → Reply × State
insert_created back user name s =
    if back.exec_fails || is_some (lookup back.new_id s.catalog.datasets)
    then (
      err_json 500 (codes "failed to create dataset"),
      record s {
        statements = (drop_database back.root back.server back.new_database s.statements).1;
      },
    )
    else (
      json 201 (
          (codes "id", back.new_id)
          ∷ (codes "name", name)
          ∷ (codes "mysql_database", back.new_database)
          ∷ []),
      record s { catalog = insert_dataset back user name s.catalog },
    )

-- behind `CreateDatabase`
unfoldable pub after_create :
    Backend → Text → Text → Option DdlError × List Text → State → Reply × State
after_create back user name (some e, statements) s =
    (err_json 500 (codes "failed to create database"), record s { statements = statements })
after_create back user name (none, statements) s =
    insert_created back user name (record s { statements = statements })

unfoldable pub create_named : Backend → Text → Text → State → Reply × State
create_named back user name s = guard (same name []) 400 (codes "name is required") s (
    guard (name_exists back name none s.catalog) 409 (codes "dataset name already exists") s (
      after_create back user name
        (create_database back.root back.server back.new_database s.statements) s))

unfoldable pub create_body : Backend → Text → Option Text → State → Reply × State
create_body back user none s = (err_json 400 (codes "invalid json"), s)
create_body back user (some name) s = create_named back user (trim_space name) s

-- `CreateDataset`
unfoldable pub create_dataset : Backend → Option Claims → Option Text → State → Reply × State
create_dataset back claims body s =
    guard (refused_caller claims) 403 (codes "only super_admin can create datasets") s
      (create_body back (id_of claims) body s)

unfoldable pub mark_deleted : Dataset → Dataset
mark_deleted d = record d { status = codes "deleted" }

-- the `UPDATE` and the `Close` of the pool
unfoldable pub mark_and_close : Backend → Text → Dataset → State → Reply × State
mark_and_close back id d s = guard back.exec_fails 500 (codes "db error") s (
  ok_message (codes "deleted"),
  record s {
    catalog = set_dataset id mark_deleted (some d) s.catalog;
    manager = close id s.manager;
  },
)

unfoldable pub drop_of : Backend → Dataset → State → State
drop_of back d s = record s {
  statements = (drop_database back.root back.server d.mysql_database s.statements).1;
}

unfoldable pub delete_found : Backend → Text → Option Dataset → State → Reply × State
delete_found back id none s = (err_json 404 (codes "dataset not found"), s)
delete_found back id (some d) s =
    guard back.select_fails 404 (codes "dataset not found") s
      (mark_and_close back id d (drop_of back d s))

-- `DeleteDataset`; an error of `DropDatabase` is only logged
unfoldable pub delete_dataset : Backend → Option Claims → Text → State → Reply × State
delete_dataset back claims id s =
    guard (refused_caller claims) 403 (codes "only super_admin can delete datasets") s (
      guard (same id []) 400 (codes "missing dataset id") s
        (delete_found back id (lookup id s.catalog.datasets) s))
