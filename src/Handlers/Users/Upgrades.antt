-- ===== src/Handlers/Users/Upgrades.antt =====
-- internal/handlers/auth.go: the requests for a higher role and their review, and one type of all that
-- the handlers which change the tables are asked for.
use data_flow_agent_hub.Base.{
  Text, codes, same, trim_space, to_lower, lookup, List, [], ◌∷◌, not, ◌&&◌, Option, none, some,
  if◌then◌else◌,
}
use data_flow_agent_hub.Rbac.{data_admin, read_only_visitor}
use data_flow_agent_hub.Handlers.{Reply, err_json, json, guard}
use data_flow_agent_hub.Handlers.Users.{
  Claims, Backend, RegisterRequest, not_super_admin, id_of, after_insert, register, self_register,
  change_user_role, delete_user,
}
use data_flow_agent_hub.Handlers.Users.Tables.{
  UpgradeRequest, Db, set_role, insert_request, set_review,
}

unfoldable pub create_request : Backend → Text → Text → Text → Db → Reply × Db
create_request back user role reason db =
    guard (not (same role data_admin) && not (same role read_only_visitor)) 400
      (codes "requested_role must be data_admin or read_only_visitor") db
      (after_insert (codes "failed to create request")
        ((codes "id", back.new_id) ∷ (codes "status", codes "pending") ∷ []) db
        (insert_request back.exec_fails back.new_id user role reason db))

unfoldable pub create_request_body : Backend → Text → Option (Text × Text) → Db → Reply × Db
create_request_body back user none db = (err_json 400 (codes "invalid json"), db)
create_request_body back user (some (role, reason)) db =
    create_request back user (to_lower (trim_space role)) reason db

-- `CreateUpgradeRequest` for the requested role and the reason of the body
unfoldable pub create_upgrade_request :
    Backend → Option Claims → Option (Text × Text) → Db → Reply × Db
create_upgrade_request back none body db = (err_json 401 (codes "unauthorized"), db)
create_upgrade_request back (some c) body db = create_request_body back c.user_id body db

abbrev pub approved : Text
approved = codes "approved"

-- `newStatus`
unfoldable pub new_status : Text → Text
new_status action = if same action (codes "reject") then codes "rejected" else approved

-- the role of the user, once the request is marked
unfoldable pub grant : Backend → Text → UpgradeRequest → Db → Db
grant back action q db =
    if same action (codes "approve") && not back.second_exec_fails
    then set_role q.requested_role q.user_id db
    else db

unfoldable pub review_found :
    Backend → Text → Text → Text → Text → Option UpgradeRequest → Db → Reply × Db
review_found back reviewer id action notes none db = (err_json 404 (codes "request not found"), db)
review_found back reviewer id action notes (some q) db =
    guard (not (same q.status (codes "pending"))) 400 (codes "request already reviewed") db (
      guard back.exec_fails 500 (codes "db error") db (
        json 200 ((codes "message", codes "ok") ∷ (codes "status", new_status action) ∷ []),
        grant back action q (set_review (new_status action) reviewer notes id db),
      ))

-- the answer of the `SELECT` of the request
unfoldable pub select_request : Backend → Text → Db → Option UpgradeRequest
select_request back id db = if back.query_fails then none else lookup id db.requests

unfoldable pub review_action : Backend → Text → Text → Text → Text → Db → Reply × Db
review_action back reviewer id action notes db =
    guard (not (same action (codes "approve")) && not (same action (codes "reject"))) 400
      (codes "action must be approve or reject") db
      (review_found back reviewer id action notes (select_request back id db) db)

unfoldable pub review_body : Backend → Text → Text → Option (Text × Text) → Db → Reply × Db
review_body back reviewer id none db = (err_json 400 (codes "invalid json"), db)
review_body back reviewer id (some (action, notes)) db =
    review_action back reviewer id (to_lower (trim_space action)) notes db

-- `ReviewUpgradeRequest` for the action and the notes of the body
unfoldable pub review_upgrade_request :
    Backend → Option Claims → Text → Option (Text × Text) → Db → Reply × Db
review_upgrade_request back claims id body db =
    guard (not_super_admin claims) 403 (codes "only super_admin can review upgrade requests") db (
      guard (same id []) 400 (codes "missing request id") db
        (review_body back (id_of claims) id body db))

-- The requests that change the two tables; those of `ListUsers` and `ListUpgradeRequests` do not.
pub data Command : Type 0 where
  registers : Backend → Option Claims → Option RegisterRequest → Command
  self_registers : Backend → Option (Text × Text × Text) → Command
  changes_role : Backend → Option Claims → Text → Option Text → Command
  deletes : Backend → Option Claims → Text → Command
  asks : Backend → Option Claims → Option (Text × Text) → Command
  reviews : Backend → Option Claims → Text → Option (Text × Text) → Command

unfoldable pub handle : Command → Db → Reply × Db
handle (registers back claims body) db = register back claims body db
handle (self_registers back body) db = self_register back body db
handle (changes_role back claims id body) db = change_user_role back claims id body db
handle (deletes back claims id) db = delete_user back claims id db
handle (asks back claims body) db = create_upgrade_request back claims body db
handle (reviews back claims id body) db = review_upgrade_request back claims id body db

-- the requests of a list, one after the other
unfoldable pub handle_all : List Command → Db → Db
handle_all [] db = db
handle_all (c ∷ cs) db = handle_all cs (handle c db).1
