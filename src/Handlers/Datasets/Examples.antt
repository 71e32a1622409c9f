-- ===== src/Handlers/Datasets/Examples.antt =====
-- Requests about a data set.
use data_flow_agent_hub.Base.{codes, same, lookup, [], ◌∷◌, false, none, some, ◌≡◌, refl}
use data_flow_agent_hub.Rbac.{super_admin, normal_user, is_super_admin}
use data_flow_agent_hub.Handlers.{guard}
use data_flow_agent_hub.Handlers.Users.{Claims}
use data_flow_agent_hub.Handlers.DataSql.{Catalog}
use data_flow_agent_hub.Handlers.Datasets.{
  Backend, revoke_dataset_access, revoke_body, refused_caller,
}
use data_flow_agent_hub.Sqlrun.Run.{ok, err}
use data_flow_agent_hub.Mysqlmgr.{new_manager, get_pool}
use data_flow_agent_hub.Handlers.Datasets.Databases.{
  State, delete_dataset, delete_found, mark_and_close,
}
use data_flow_agent_hub.Handlers.Datasets.Access.{
  Succeeds, NoAccess, revoke_dataset_access-NoAccess, delete_dataset-NoAccess,
}

abbrev back : Backend
back = record {
  new_id = codes "e";
  new_database = codes "db2";
  root = ok 0;
  server = λ log sql. err (codes "gone");
  count_fails = false;
  select_fails = false;
  exec_fails = false;
  second_exec_fails = false;
}

abbrev catalog : Catalog
catalog = record {
  datasets =
      (codes "d", record { name = codes "n"; mysql_database = codes "db"; status = codes "active" })
      ∷ [];
  permissions =
      record { dataset_id = codes "d"; user_id = codes "u"; permission_level = codes "admin" } ∷ [];
  count_fails = false;
  select_fails = false;
}

abbrev root : Claims
root = record { user_id = codes "r"; role = super_admin }

low : same normal_user super_admin ≡ false
unfolding same normal_user super_admin
low = refl

revoked :
    Succeeds
      (codes "revoked")
      (revoke_dataset_access back (some root) (codes "d") (some (codes "u")) catalog).0
unfolding revoke_dataset_access revoke_body guard refused_caller is_super_admin same super_admin
revoked = refl

revoke_dataset_access-NoAccess_example :
    NoAccess
      (codes "u")
      (codes "d")
      normal_user
      (revoke_dataset_access back (some root) (codes "d") (some (codes "u")) catalog).1
revoke_dataset_access-NoAccess_example =
    revoke_dataset_access-NoAccess back (some root) (codes "d") (codes "u") normal_user catalog low
      revoked

abbrev state : State
state = record {
  catalog = catalog;
  statements = [];
  manager = record new_manager { pools = (codes "d", 0) ∷ [] };
}

deleted : Succeeds (codes "deleted") (delete_dataset back (some root) (codes "d") state).0
unfolding delete_dataset delete_found mark_and_close guard refused_caller is_super_admin same
    super_admin lookup
deleted = refl

delete_dataset-NoAccess_example :
    NoAccess
      (codes "u")
      (codes "d")
      normal_user
      (delete_dataset back (some root) (codes "d") state).1.catalog
    × (get_pool (codes "d") (delete_dataset back (some root) (codes "d") state).1.manager ≡ none)
delete_dataset-NoAccess_example =
    delete_dataset-NoAccess back (some root) (codes "d") (codes "u") normal_user state low deleted
