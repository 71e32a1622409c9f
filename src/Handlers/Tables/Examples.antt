-- ===== src/Handlers/Tables/Examples.antt =====
-- A table that is created, and one that is deleted.
use data_flow_agent_hub.Base.{
  codes, same, trim_space, lookup, pos, [], ◌∷◌, false, Option, some, ◌≡◌, refl,
}
use data_flow_agent_hub.Rbac.{data_admin, super_admin, is_data_admin, is_super_admin}
use data_flow_agent_hub.Sqlrun.Run.{ok}
use data_flow_agent_hub.Mysqlmgr.Ddl.{drop_table, exec_on, drop_table_sql, quoted, sent}
use data_flow_agent_hub.Handlers.Users.{Claims}
use data_flow_agent_hub.Handlers.DataSql.{Catalog}
use data_flow_agent_hub.Handlers.Tables.Rows.{
  Store, Backend, NewTable, table_deleted, is_active_in, refused_caller, user_of,
}
use data_flow_agent_hub.Handlers.Tables.Create.{create_dataset_table}
use data_flow_agent_hub.Handlers.Tables.Atomic.{Atomic, create_dataset_table-Atomic}
use data_flow_agent_hub.Handlers.Tables.Listing.{Hidden, delete_dataset_table-Hidden}
use data_flow_agent_hub.Handlers.Tables.{
  list_dataset_tables, get_dataset_table, find_active, mark_inactive, delete_found,
  delete_dataset_table,
}

abbrev back : Backend
back = record {
  new_table = codes "t2";
  new_field = λ i. codes "f";
  new_mysql_name = codes "tbl_2";
  pool = ok 1;
  server = λ log sql. ok [];
  count_fails = false;
  select_fails = false;
  fields_fail = false;
  update_fails = false;
  begin_fails = false;
  table_fails = false;
  field_fails = λ i. false;
  commit_fails = false;
  error_text = λ e. codes "invalid field";
}

abbrev catalog : Catalog
catalog = record {
  datasets =
      (codes "d", record { name = codes "n"; mysql_database = codes "db"; status = codes "active" })
      ∷ [];
  permissions = [];
  count_fails = false;
  select_fails = false;
}

abbrev store : Store
store = record {
  tables =
      (
        codes "t",
        record {
          dataset_id = codes "d";
          name = codes "orders";
          display_name = [];
          mysql_table_name = codes "tbl_1";
          status = codes "active";
          created_by = codes "r";
        },
      )
      ∷ [];
  fields = [];
  statements = [];
}

abbrev root : Option Claims
root = some (record { user_id = codes "r"; role = super_admin })

abbrev body : NewTable
body = record {
  name = codes " stock ";
  display_name = [];
  fields =
      record {
        name = codes "sku";
        field_type = codes "varchar";
        field_len = pos 12;
        is_nullable = false;
      }
      ∷ [];
}

create_dataset_table-Atomic_example :
    Atomic back
      (user_of root).0
      (codes "d")
      (record body { name = trim_space body.name })
      store
      (create_dataset_table back root catalog (codes "d") (some body) store)
create_dataset_table-Atomic_example =
    create_dataset_table-Atomic back root catalog (codes "d") body store

-- an administrator of data without a grant for the data set
abbrev admin : Option Claims
admin = some (record { user_id = codes "a"; role = data_admin })

deleted : (delete_dataset_table back admin catalog (codes "d") (codes "t") store).0 ≡ table_deleted
unfolding delete_dataset_table refused_caller is_data_admin is_super_admin data_admin super_admin
    same lookup find_active is_active_in delete_found mark_inactive drop_table exec_on
    drop_table_sql quoted sent
deleted = refl

delete_dataset_table-Hidden_example :
    Hidden (codes "t") (
      list_dataset_tables back root catalog
        (codes "d")
        (delete_dataset_table back admin catalog (codes "d") (codes "t") store).1)
    × Hidden (codes "t") (
        get_dataset_table back root catalog
          (codes "d")
          (codes "t")
          (delete_dataset_table back admin catalog (codes "d") (codes "t") store).1)
delete_dataset_table-Hidden_example =
    delete_dataset_table-Hidden back admin catalog (codes "d") (codes "t") store back root catalog
      (codes "d") deleted
