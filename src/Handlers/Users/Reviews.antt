-- ===== src/Handlers/Users/Reviews.antt =====
-- internal/handlers/auth.go: the life of a request for a role.
use data_flow_agent_hub.Base.{
  Text, codes, same, same_iff, lookup, List, [], ◌∷◌, Bool, false, not, ◌&&◌, Option, none, some,
  ◌≡◌, ◌∙◌, inl, inr, refl, ap, ◌≢◌, Bool-cases, if_cases,
}
use data_flow_agent_hub.Handlers.Users.{Backend, demo_workspace, new_user}
use data_flow_agent_hub.Handlers.Users.Tables.{
  User, UpgradeRequest, Db, set_role, with_role, delete_user_row, without_row, pending_request,
  set_review, with_review,
}
use data_flow_agent_hub.Handlers.Users.Upgrades.{Command, handle, handle_all, grant, new_status}
use data_flow_agent_hub.Handlers.Users.Rows.{
  insert_user-cases, insert_request-cases, lookup-put_off,
}
use data_flow_agent_hub.Handlers.Users.Steps.{
  Step, stays, adds, changes, removes, asks_for, decides, by_super, is_review, handle-Step,
}

-- the row of a request
abbrev pub Asked : Text → UpgradeRequest → Db → Type 0
Asked j p db = lookup j db.requests ≡ some p

with_role-requests :
    (role id : Text) (o : Option User) (db : Db) → (with_role role id o db).requests ≡ db.requests
unfolding with_role
with_role-requests role id none db = refl
with_role-requests role id (some u) db = refl

pub set_role-requests : (role id : Text) (db : Db) → (set_role role id db).requests ≡ db.requests
unfolding set_role
set_role-requests role id db = with_role-requests role id (lookup id db.users) db

without_row-requests :
    (workspace id : Text) (o : Option User) (db : Db)
    → (without_row workspace id o db).requests ≡ db.requests
unfolding without_row
without_row-requests workspace id none db = refl
without_row-requests workspace id (some u) db =
    if_cases (λ (d : Db). d.requests ≡ db.requests) (same u.workspace workspace) _ db (λ e. refl)
      (λ e. refl)

delete_user_row-requests :
    (workspace id : Text) (db : Db) → (delete_user_row workspace id db).requests ≡ db.requests
unfolding delete_user_row
delete_user_row-requests workspace id db = without_row-requests workspace id (lookup id db.users) db

grant-requests :
    (back : Backend) (action : Text) (q : UpgradeRequest) (db : Db)
    → (grant back action q db).requests ≡ db.requests
unfolding grant
grant-requests back action q db =
    if_cases (λ (d : Db). d.requests ≡ db.requests)
      (same action (codes "approve") && not back.second_exec_fails) _ db
      (λ e. set_role-requests q.requested_role q.user_id db) (λ e. refl)

with_review-Asked :
    (j : Text) (p : UpgradeRequest) (status reviewer notes id : Text) (o : Option UpgradeRequest)
    (db : Db)
    → same id j ≡ false
    → Asked j p db
    → Asked j p (with_review status reviewer notes id o db)
unfolding with_review
with_review-Asked j p status reviewer notes id none db off h = h
with_review-Asked j p status reviewer notes id (some q) db off h =
    lookup-put_off id j _ db.requests off ∙ h

Step-reviewed :
    (super review : Bool) (j : Text) (p : UpgradeRequest) (db db' : Db)
    → Asked j p db
    → p.status ≢ codes "pending"
    → Step super review db db'
    → Asked j p db'
Step-reviewed super review j p db _ h closed stays = h
Step-reviewed super review j p db db' h closed (adds fails id name phone hashed r may e) =
    let (free, eq) = insert_user-cases fails id (new_user name phone hashed r) db db' e in
    cc (eq, h)
Step-reviewed super review j p db _ h closed (changes back id r to is found low valid) =
    ap (lookup j) (set_role-requests to id db) ∙ h
Step-reviewed super review j p db _ h closed (removes back id r is found low) =
    ap (lookup j) (delete_user_row-requests demo_workspace id db) ∙ h
Step-reviewed super review j p db db' h closed (asks_for fails id user r reason may e) =
    let (free, eq) = insert_request-cases fails id user r reason db db' e in
    elim (Bool-cases (same id j)) [
      | inl at ↦ absurd (cc (h, free, (same_iff id j).0 at))
      | inr off ↦ cc (lookup-put_off id j (pending_request user r reason) db.requests off, h, eq)
    ]
Step-reviewed super review j p db _ h closed
      (decides back id reviewer action notes q is it found pending) =
    ap (lookup j)
      (grant-requests back action q (set_review (new_status action) reviewer notes id db))
    ∙ elim (Bool-cases (same id j)) [
      | inl at ↦ absurd (closed (cc (h, found, (same_iff id j).0 at, pending)))
      | inr off ↦ unfold set_review in with_review-Asked j p _ reviewer notes id _ db off h
    ]

-- A request for a role that was decided stays as it was decided, whatever requests come in later.
pub handle_all-reviewed :
    (cs : List Command) (j : Text) (p : UpgradeRequest) (db : Db)
    → Asked j p db
    → p.status ≢ codes "pending"
    → Asked j p (handle_all cs db)
unfolding handle_all
handle_all-reviewed [] j p db h closed = h
handle_all-reviewed (c ∷ cs) j p db h closed =
    handle_all-reviewed cs j p (handle c db).1
      (Step-reviewed (by_super c) (is_review c) j p db (handle c db).1 h closed (handle-Step c db))
      closed
