-- ===== src/Handlers/Users/Lists.antt =====
-- The lists of users and of requests for roles in internal/handlers/auth.go; their order is left out.
use data_flow_agent_hub.Base.{
  ℕ, Text, codes, same, lookup, List, [], ◌∷◌, Option, none, some, if◌then◌else◌,
}
use data_flow_agent_hub.Handlers.Users.Tables.{User, UpgradeRequest, Db}
use data_flow_agent_hub.Handlers.Users.{Claims, Backend, demo_workspace, not_super_admin}

pub data Listed (A : Type 0) : Type 0 where
  refused : ℕ → Text → Listed A
  listed : List A → Listed A

-- `SELECT ... FROM users WHERE workspace_id = ?`
unfoldable pub users_of : Text → List (Text × User) → List (Text × User)
users_of workspace [] = []
users_of workspace ((id, u) ∷ users) =
    let rest = users_of workspace users in
    if same u.workspace workspace then (id, u) ∷ rest else rest

-- `ListUsers`
unfoldable pub list_users : Backend → Option Claims → Db → Listed (Text × User)
list_users back claims db =
    if not_super_admin claims
    then refused 403 (codes "only super_admin can list users")
    else if back.query_fails
    then refused 500 (codes "db error")
    else listed (users_of demo_workspace db.users)

-- a request with the user that it joins with
pub record RequestRow : Type 0 where
  pub id : Text
  pub request : UpgradeRequest
  pub user : User

unfoldable pub join_user : Text → UpgradeRequest → Option User → List RequestRow → List RequestRow
join_user id r none rest = rest
join_user id r (some u) rest = record { id = id; request = r; user = u } ∷ rest

unfoldable pub requests_of :
    Text → List (Text × User) → List (Text × UpgradeRequest) → List RequestRow
requests_of status users [] = []
requests_of status users ((id, r) ∷ requests) =
    let rest = requests_of status users requests in
    if same r.status status then join_user id r (lookup r.user_id users) rest else rest

unfoldable pub status_filter : Text → Text
status_filter status = if same status [] then codes "pending" else status

-- `ListUpgradeRequests`
unfoldable pub list_upgrade_requests : Backend → Option Claims → Text → Db → Listed RequestRow
list_upgrade_requests back claims status db =
    if not_super_admin claims
    then refused 403 (codes "only super_admin can list upgrade requests")
    else if back.query_fails
    then refused 500 (codes "db error")
    else listed (requests_of (status_filter status) db.users db.requests)
