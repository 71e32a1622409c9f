-- ===== src/Handlers/Datasets.antt =====
-- internal/handlers/datasets.go: the data sets and the grants of access to them. Databases has the two
-- handlers that also change the server of the data sets. What the database and
-- `mysqlmgr` answer during one request is a parameter.
pub mod Databases
pub mod Access
pub mod Lists
pub mod Examples
use data_flow_agent_hub.Base.{
  ℕ, suc, Text, codes, same, trim_space, to_lower, lookup, put, ltb, List, [], ◌∷◌, Bool, true, not,
  ◌&&◌, ◌||◌, Option, none, some, if◌then◌else◌,
}
use data_flow_agent_hub.Rbac.{is_super_admin}
use data_flow_agent_hub.Sqlrun.Run.{Answer}
use data_flow_agent_hub.Mysqlmgr.Ddl.{Server}
use data_flow_agent_hub.Handlers.{Reply, err_json, json, guard}
use data_flow_agent_hub.Handlers.Users.{Claims}
use data_flow_agent_hub.Handlers.DataSql.{Dataset, Permission, Catalog, not_deleted}

pub record Backend : Type 0 where
  pub new_id : Text  -- `uuid.NewString()`
  pub new_database : Text  -- `generateMysqlDBName()`
  pub root : Answer ℕ  -- `sql.Open` for the root user, and the server behind it
  pub server : Server
  pub count_fails : Bool
  pub select_fails : Bool
  pub exec_fails : Bool
  pub second_exec_fails : Bool

-- `c == nil || !rbac.IsSuperAdmin(c.Role)`
unfoldable pub refused_caller : Option Claims → Bool
refused_caller none = true
refused_caller (some c) = not (is_super_admin c.role)

-- `SELECT COUNT(*) FROM datasets WHERE name = ?`, and with `AND id != ?`
unfoldable pub count_names : Text → Option Text → List (Text × Dataset) → ℕ
count_names name other [] = 0
count_names name other ((id, d) ∷ rest) =
    let n = count_names name other rest in
    if same d.name name && not_same other id then suc n else n
  where
    not_same : Option Text → Text → Bool
    not_same none id = true
    not_same (some o) id = not (same id o)

unfoldable pub name_exists : Backend → Text → Option Text → Catalog → Bool
name_exists back name other cat =
    not back.count_fails && ltb 0 (count_names name other cat.datasets)

unfoldable pub ok_message : Text → Reply
ok_message message = json 200 ((codes "message", message) ∷ [])

-- `INSERT INTO dataset_permissions`; the key is the data set with the user
unfoldable pub drop_permission : Text → Text → List Permission → List Permission
drop_permission dataset user [] = []
drop_permission dataset user (p ∷ rest) =
    let kept = drop_permission dataset user rest in
    if same p.dataset_id dataset && same p.user_id user then kept else p ∷ kept

unfoldable pub put_permission : Text → Text → Text → Catalog → Catalog
put_permission dataset user level cat = record cat {
  permissions =
      record { dataset_id = dataset; user_id = user; permission_level = level }
      ∷ drop_permission dataset user cat.permissions;
}

-- the two inserts of `CreateDataset`, the second of which may fail without an error
unfoldable pub insert_dataset : Backend → Text → Text → Catalog → Catalog
insert_dataset back user name cat =
    let cat' = record cat {
      datasets =
          put back.new_id
            (record { name = name; mysql_database = back.new_database; status = codes "active" })
            cat.datasets;
    } in
    if back.second_exec_fails then cat' else put_permission back.new_id user (codes "admin") cat'

-- an `UPDATE datasets` of the row of a key
unfoldable pub set_dataset : Text → (Dataset → Dataset) → Option Dataset → Catalog → Catalog
set_dataset id f none cat = cat
set_dataset id f (some d) cat = record cat { datasets = put id (f d) cat.datasets }

unfoldable pub rename : Text → Dataset → Dataset
rename name d = record d { name = name }

unfoldable pub update_named : Backend → Text → Text → Catalog → Reply × Catalog
update_named back id name cat = guard (same name []) 400 (codes "name is required") cat (
    guard (name_exists back name (some id) cat) 409 (codes "dataset name already exists") cat (
      guard back.exec_fails 500 (codes "db error") cat
        (ok_message (codes "ok"), set_dataset id (rename name) (lookup id cat.datasets) cat)))

unfoldable pub update_body : Backend → Text → Option Text → Catalog → Reply × Catalog
update_body back id none cat = (err_json 400 (codes "invalid json"), cat)
update_body back id (some name) cat = update_named back id (trim_space name) cat

-- `UpdateDataset`
unfoldable pub update_dataset :
    Backend → Option Claims → Text → Option Text → Catalog → Reply × Catalog
update_dataset back claims id body cat =
    guard (refused_caller claims) 403 (codes "only super_admin can update datasets") cat
      (guard (same id []) 400 (codes "missing dataset id") cat (update_body back id body cat))

unfoldable pub is_level : Text → Bool
is_level level =
    same level (codes "read") || same level (codes "write") || same level (codes "admin")

unfoldable pub grant_level : Backend → Text → Text → Text → Catalog → Reply × Catalog
grant_level back id user level cat = guard (same user []) 400 (codes "user_id is required") cat (
    guard (not (is_level level)) 400 (codes "permission_level must be read, write, or admin") cat (
      guard (back.count_fails || not (not_deleted (lookup id cat.datasets))) 404
        (codes "dataset not found") cat
        (guard back.exec_fails 500 (codes "db error") cat
          (ok_message (codes "granted"), put_permission id user level cat))))

unfoldable pub grant_body : Backend → Text → Option (Text × Text) → Catalog → Reply × Catalog
grant_body back id none cat = (err_json 400 (codes "invalid json"), cat)
grant_body back id (some (user, level)) cat =
    grant_level back id user (to_lower (trim_space level)) cat

-- `GrantDatasetAccess`
unfoldable pub grant_dataset_access :
    Backend → Option Claims → Text → Option (Text × Text) → Catalog → Reply × Catalog
grant_dataset_access back claims id body cat =
    guard (refused_caller claims) 403 (codes "only super_admin can grant dataset access") cat
      (guard (same id []) 400 (codes "missing dataset id") cat (grant_body back id body cat))

unfoldable pub without_permission : Text → Text → Catalog → Catalog
without_permission dataset user cat = record cat {
  permissions = drop_permission dataset user cat.permissions;
}

unfoldable pub revoke_body : Backend → Text → Option Text → Catalog → Reply × Catalog
revoke_body back id none cat = (err_json 400 (codes "invalid json"), cat)
revoke_body back id (some user) cat = guard (same user []) 400 (codes "user_id is required") cat (
    guard back.exec_fails 500 (codes "db error") cat
      (ok_message (codes "revoked"), without_permission id user cat))

-- `RevokeDatasetAccess`
unfoldable pub revoke_dataset_access :
    Backend → Option Claims → Text → Option Text → Catalog → Reply × Catalog
revoke_dataset_access back claims id body cat =
    guard (refused_caller claims) 403 (codes "only super_admin can revoke dataset access") cat
      (guard (same id []) 400 (codes "missing dataset id") cat (revoke_body back id body cat))
