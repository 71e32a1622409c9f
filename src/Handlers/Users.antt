-- ===== src/Handlers/Users.antt =====
-- internal/handlers/auth.go: who may make, change and delete users, and ask for a higher role.
-- A table is an association list by its primary key. What the libraries answer during one request
-- (the database, bcrypt, the new identifier) is a parameter, the `Backend`. A query that fails or
-- scans badly gives `true` for its flag.
pub mod Tables
pub mod Upgrades
pub mod Rows
pub mod Lists
pub mod Steps
pub mod Safety
pub mod Reviews
pub mod Approval
pub mod Roles
pub mod Changes
pub mod Handled
pub mod Examples
use data_flow_agent_hub.Base.{
  ℕ, Text, codes, same, trim_space, to_lower, lookup, is_some, length, ltb, List, [], ◌∷◌, ◌++◌,
  Bool, true, false, not, ◌&&◌, ◌||◌, Option, none, some, if◌then◌else◌,
}
use data_flow_agent_hub.Rbac.{super_admin, data_admin, normal_user, read_only_visitor}
use data_flow_agent_hub.Handlers.{Reply, err_json, json, guard}
use data_flow_agent_hub.Handlers.Users.Tables.{
  User, UpgradeRequest, Db, insert_user, set_role, delete_user_row, insert_request, set_review,
  count_phone,
}

-- `seed.DemoWorkspaceID()`
unfoldable pub demo_workspace : Text
demo_workspace = codes "00000000-0000-4000-8000-000000000001"

-- what the handlers read of the claims of a token
pub record Claims : Type 0 where
  pub user_id : Text
  pub role : Text

pub record Backend : Type 0 where
  pub new_id : Text  -- `uuid.NewString()`
  pub hash : Text → Option Text  -- `bcrypt.GenerateFromPassword`
  pub query_fails : Bool
  pub exec_fails : Bool
  pub second_exec_fails : Bool

pub record RegisterRequest : Type 0 where
  pub name : Text
  pub phone : Text
  pub password : Text
  pub role : Text

-- `c == nil || c.Role != "super_admin"`
unfoldable pub not_super_admin : Option Claims → Bool
not_super_admin none = true
not_super_admin (some c) = not (same c.role super_admin)

unfoldable pub id_of : Option Claims → Text
id_of none = []
id_of (some c) = c.user_id

unfoldable pub new_user : Text → Text → Text → Text → User
new_user name phone password_hash role = record {
  workspace = demo_workspace;
  name = name;
  phone = phone;
  email = phone ++ codes "@phone.local";
  password_hash = password_hash;
  role = role;
}

-- the reply after the `INSERT`
unfoldable pub after_insert : Text → List (Text × Text) → Db → Option Db → Reply × Db
after_insert message fields db none = (err_json 500 message, db)
after_insert message fields db (some db') = (json 201 fields, db')

-- `INSERT INTO users` behind the hash of the password
unfoldable pub store_user :
    Option Text → Backend → Text → Text → Text → Text → List (Text × Text) → Db → Reply × Db
store_user none back name phone role message fields db = (err_json 500 (codes "internal error"), db)
store_user (some hashed) back name phone role message fields db =
    after_insert message fields db
      (insert_user back.exec_fails back.new_id (new_user name phone hashed role) db)

-- the count that `Scan` leaves in `exists`, which stays 0 when the query fails
unfoldable pub phone_exists : Backend → Text → Db → Bool
phone_exists back phone db =
    if back.query_fails then false else ltb 0 (count_phone demo_workspace phone db)

unfoldable pub register_user : Backend → Text → Text → Text → Text → Db → Reply × Db
register_user back name phone password role db =
    guard (same phone [] || same name [] || same password []) 400
      (codes "name, phone, and password are required") db
      (guard (not (same role data_admin) && not (same role read_only_visitor)) 400
        (codes "role must be data_admin or read_only_visitor") db
        (guard (phone_exists back phone db) 409 (codes "phone number already exists") db (
          store_user (back.hash password) back name phone role (codes "failed to create user")
            ((codes "id", back.new_id) ∷ (codes "name", name) ∷ (codes "role", role) ∷ []) db)))

-- `Register`; a body that does not decode is `none`
unfoldable pub register : Backend → Option Claims → Option RegisterRequest → Db → Reply × Db
register back claims none db =
    guard (not_super_admin claims) 403 (codes "only super_admin can create users") db
      (err_json 400 (codes "invalid json"), db)
register back claims (some body) db =
    guard (not_super_admin claims) 403 (codes "only super_admin can create users") db (
      register_user back (trim_space body.name) (trim_space body.phone) body.password
        (to_lower (trim_space body.role)) db)

unfoldable pub self_register_user : Backend → Text → Text → Text → Db → Reply × Db
self_register_user back name phone password db =
    guard (same phone [] || same name [] || same password []) 400
      (codes "name, phone, and password are required") db
      (guard (phone_exists back phone db) 409 (codes "phone number already exists") db (
        store_user (back.hash password) back name phone normal_user (codes "failed to register")
          ((codes "id", back.new_id)
            ∷ (codes "name", name)
            ∷ (codes "role", normal_user)
            ∷ (codes "message", codes "registration successful, please login")
            ∷ [])
          db))

-- `SelfRegister`, which reads three fields of the body
unfoldable pub self_register : Backend → Option (Text × Text × Text) → Db → Reply × Db
self_register back none db = (err_json 400 (codes "invalid json"), db)
self_register back (some (name, phone, password)) db =
    self_register_user back (trim_space name) (trim_space phone) password db

-- `validRoles`
abbrev pub valid_roles : List (Text × Bool)
valid_roles =
    (super_admin, true) ∷ (data_admin, true) ∷ (normal_user, true) ∷ (read_only_visitor, true) ∷ []

unfoldable pub is_valid_role : Text → Bool
unfolding lookup
is_valid_role role = is_some (lookup role valid_roles)

-- `SELECT role FROM users WHERE id = ? AND workspace_id = ?`, on the row of the key
unfoldable pub found_role : Bool → Option User → Option Text
found_role fails none = none
found_role fails (some u) =
    if fails then none else if same u.workspace demo_workspace then some u.role else none

unfoldable pub target_role : Backend → Text → Db → Option Text
unfolding lookup found_role
target_role back id db = found_role back.query_fails (lookup id db.users)

-- what `ChangeUserRole` and `DeleteUser` do once the role of the user is read
unfoldable pub on_target : Option Text → Text → Bool → Db → Db → Reply × Db
on_target none message fails db db' = (err_json 404 (codes "user not found"), db)
on_target (some role) message fails db db' =
    guard (same role super_admin) 400 message db
      (guard fails 500 (codes "db error") db (json 200 ((codes "message", codes "ok") ∷ []), db'))

unfoldable pub change_role_to : Backend → Text → Text → Db → Reply × Db
change_role_to back id role db =
    guard (not (is_valid_role role)) 400
      (codes "role must be one of: super_admin, data_admin, normal_user, read_only_visitor") db
      (on_target (target_role back id db) (codes "cannot change role of a super_admin user")
        back.exec_fails db (set_role role id db))

unfoldable pub change_role_body : Backend → Text → Option Text → Db → Reply × Db
change_role_body back id none db = (err_json 400 (codes "invalid json"), db)
change_role_body back id (some role) db = change_role_to back id (to_lower (trim_space role)) db

-- `ChangeUserRole` for the user of the path and the role of the body
unfoldable pub change_user_role : Backend → Option Claims → Text → Option Text → Db → Reply × Db
change_user_role back claims id body db =
    guard (not_super_admin claims) 403 (codes "only super_admin can change user role") db (
      guard (same id []) 400 (codes "missing user id") db (
        guard (same id (id_of claims)) 400 (codes "cannot change your own role") db
          (change_role_body back id body db)))

-- `DeleteUser`
unfoldable pub delete_user : Backend → Option Claims → Text → Db → Reply × Db
delete_user back claims id db =
    guard (not_super_admin claims) 403 (codes "only super_admin can delete users") db (
      guard (same id []) 400 (codes "missing user id") db (
        guard (same id (id_of claims)) 400 (codes "cannot delete yourself") db (
          on_target (target_role back id db) (codes "cannot delete a super_admin user")
            back.exec_fails db (delete_user_row demo_workspace id db))))
