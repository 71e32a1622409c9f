-- ===== src/Handlers/Users/Tables.antt =====
-- The tables `users` and `permission_requests`, and the statements that internal/handlers/auth.go
-- sends to them. The keys of `users` are those of internal/migrate/001_init.sql; no migration creates
-- `permission_requests`, whose key is taken to be its identifier.
use data_flow_agent_hub.Base.{
  ℕ, suc, Text, codes, same, lookup, put, remove, is_some, List, [], ◌∷◌, Bool, false, ◌&&◌, ◌||◌,
  Option, none, some, if◌then◌else◌,
}

pub record User : Type 0 where
  pub workspace : Text
  pub name : Text
  pub phone : Text
  pub email : Text
  pub password_hash : Text
  pub role : Text

pub record UpgradeRequest : Type 0 where
  pub user_id : Text
  pub requested_role : Text
  pub reason : Text
  pub status : Text
  pub reviewed_by : Text
  pub review_notes : Text

pub record Db : Type 0 where
  pub users : List (Text × User)
  pub requests : List (Text × UpgradeRequest)

unfoldable pub same_email : User → List (Text × User) → Bool
same_email u [] = false
same_email u ((id, v) ∷ rest) =
    (same u.workspace v.workspace && same u.email v.email) || same_email u rest

-- `INSERT INTO users`: `none` when it fails, as it does on a key that is taken
unfoldable pub insert_user : Bool → Text → User → Db → Option Db
unfolding lookup put
insert_user fails id u db =
    if fails || is_some (lookup id db.users) || same_email u db.users
    then none
    else some (record db { users = put id u db.users })

-- `SELECT COUNT(*) FROM users WHERE workspace_id = ? AND phone = ?`
unfoldable pub count_rows : Text → Text → List (Text × User) → ℕ
count_rows workspace phone [] = 0
count_rows workspace phone ((id, u) ∷ rest) =
    let n = count_rows workspace phone rest in
    if same u.workspace workspace && same u.phone phone then suc n else n

unfoldable pub count_phone : Text → Text → Db → ℕ
unfolding count_rows
count_phone workspace phone db = count_rows workspace phone db.users

-- `UPDATE users SET role = ? WHERE id = ?`, on the row of the key
unfoldable pub with_role : Text → Text → Option User → Db → Db
unfolding put
with_role role id none db = db
with_role role id (some u) db = record db { users = put id (record u { role = role }) db.users }

unfoldable pub set_role : Text → Text → Db → Db
unfolding lookup with_role
set_role role id db = with_role role id (lookup id db.users) db

-- `DELETE FROM users WHERE id = ? AND workspace_id = ?`, on the row of the key
unfoldable pub without_row : Text → Text → Option User → Db → Db
unfolding remove
without_row workspace id none db = db
without_row workspace id (some u) db =
    if same u.workspace workspace then record db { users = remove id db.users } else db

unfoldable pub delete_user_row : Text → Text → Db → Db
unfolding lookup without_row
delete_user_row workspace id db = without_row workspace id (lookup id db.users) db

-- the row of a new request; `status` has its default
unfoldable pub pending_request : Text → Text → Text → UpgradeRequest
pending_request user_id requested_role reason = record {
  user_id = user_id;
  requested_role = requested_role;
  reason = reason;
  status = codes "pending";
  reviewed_by = [];
  review_notes = [];
}

-- `INSERT INTO permission_requests`
unfoldable pub insert_request : Bool → Text → Text → Text → Text → Db → Option Db
unfolding lookup put
insert_request fails id user_id requested_role reason db =
    if fails || is_some (lookup id db.requests)
    then none
    else some (record db {
      requests = put id (pending_request user_id requested_role reason) db.requests;
    })

-- `UPDATE permission_requests SET status = ?, reviewed_by = ?, review_notes = ? WHERE id = ?`, on
-- the row of the key
unfoldable pub with_review : Text → Text → Text → Text → Option UpgradeRequest → Db → Db
unfolding put
with_review status reviewed_by review_notes id none db = db
with_review status reviewed_by review_notes id (some q) db = record db {
  requests =
      put id (record q { status = status; reviewed_by = reviewed_by; review_notes = review_notes })
        db.requests;
}

unfoldable pub set_review : Text → Text → Text → Text → Db → Db
unfolding lookup with_review
set_review status reviewed_by review_notes id db =
    with_review status reviewed_by review_notes id (lookup id db.requests) db
