-- ===== src/Handlers/Users/Approval.antt =====
-- internal/handlers/auth.go: what the approval of a request does.
use data_flow_agent_hub.Base.{
  Text, codes, same, same_refl, lookup, lookup-put, put, [], Bool, true, false, not, ◌&&◌, some,
  if◌then◌else◌, arith, ◌≡◌, ◌∙◌, refl, ap, ℕ, trim_space, to_lower,
}
use data_flow_agent_hub.Rbac.{super_admin}
use data_flow_agent_hub.Handlers.{Reply, guard}
use data_flow_agent_hub.Handlers.Users.{Backend, Claims, id_of, not_super_admin}
use data_flow_agent_hub.Handlers.Users.Tables.{
  User, UpgradeRequest, Db, set_role, with_role, set_review, with_review,
}
use data_flow_agent_hub.Handlers.Users.Upgrades.{
  grant, new_status, review_found, review_upgrade_request, review_action, review_body,
  select_request,
}
use data_flow_agent_hub.Handlers.Users.Rows.{Has}
use data_flow_agent_hub.Handlers.Users.Reviews.{Asked, set_role-requests}

-- what a decision leaves in the two tables
pub set_review-found :
    (status reviewer notes id : Text) (q : UpgradeRequest) (db : Db)
    → Asked id q db
    → set_review status reviewer notes id db ≡ record db {
      requests =
          put id
            (record q { status = status; reviewed_by = reviewer; review_notes = notes })
            db.requests;
    }
unfolding set_review
set_review-found status reviewer notes id q db h =
    ap (λ o. with_review status reviewer notes id o db) h ∙ unfold with_review in refl

set_role-found :
    (role id : Text) (u : User) (db : Db)
    → lookup id db.users ≡ some u
    → lookup id (set_role role id db).users ≡ some (record u { role = role })
unfolding set_role
set_role-found role id u db h =
    ap (λ o. lookup id (with_role role id o db).users) h
    ∙ unfold with_role in
      lookup-put id id (record u { role = role }) db.users
      ∙ ap (λ b. if b then some (record u { role = role }) else lookup id db.users) (same_refl id)

-- what a request holds once it is approved
abbrev pub approval : Text → Text → UpgradeRequest → UpgradeRequest
approval reviewer notes q = record q {
  status = codes "approved";
  reviewed_by = reviewer;
  review_notes = notes;
}

guard-open :
    {S : Type 0} (b : Bool) (status : ℕ) (message : Text) (s : S) (rest : Reply × S)
    → b ≡ false
    → guard b status message s rest ≡ rest
guard-open true status message s rest h = absurd (ground (arith, h))
guard-open false status message s rest h = unfold guard in refl

abbrev pub decided : Text → Text → Text → UpgradeRequest → Db → Db
decided id reviewer notes q db = record db {
  requests = put id (approval reviewer notes q) db.requests;
}

select_request-found :
    (back : Backend) (id : Text) (q : UpgradeRequest) (db : Db)
    → back.query_fails ≡ false
    → Asked id q db
    → select_request back id db ≡ some q
unfolding select_request
select_request-found back id q db answers h = rw (answers, h) refl

review_found-pending :
    (back : Backend) (reviewer id notes : Text) (q : UpgradeRequest) (db : Db)
    → back.exec_fails ≡ false
    → q.status ≡ codes "pending"
    → (review_found back reviewer id (codes "approve") notes (some q) db).1
      ≡ grant back
          (codes "approve")
          q
          (set_review (new_status (codes "approve")) reviewer notes id db)
unfolding review_found
review_found-pending back reviewer id notes q db sends pending =
    ap (λ (x : Reply × Db). x.1)
      (guard-open _ _ _ db _
        (ap (λ t. not (same t (codes "pending"))) pending ∙ ap not (same_refl (codes "pending"))))
    ∙ ap (λ (x : Reply × Db). x.1) (guard-open _ _ _ db _ sends)

grant-approve :
    (back : Backend) (q : UpgradeRequest) (db : Db)
    → back.second_exec_fails ≡ false
    → grant back (codes "approve") q db ≡ set_role q.requested_role q.user_id db
unfolding grant
grant-approve back q db grants = rw (same_refl (codes "approve"), grants) refl

review_action-approve :
    (back : Backend) (reviewer id notes : Text) (db : Db)
    → review_action back reviewer id (codes "approve") notes db
      ≡ review_found back reviewer id (codes "approve") notes (select_request back id db) db
unfolding review_action
review_action-approve back reviewer id notes db =
    guard-open _ _ _ db _ (
      ap (λ b. not b && not (same (codes "approve") (codes "reject")))
        (same_refl (codes "approve")))

review-opens :
    (back : Backend) (c : Claims) (id action notes : Text) (db : Db)
    → c.role ≡ super_admin
    → same id [] ≡ false
    → review_upgrade_request back (some c) id (some (action, notes)) db
      ≡ review_action back c.user_id id (to_lower (trim_space action)) notes db
unfolding review_upgrade_request not_super_admin id_of review_body
review-opens back c id action notes db super named =
    guard-open _ _ _ db _
      (ap (λ t. not (same t super_admin)) super ∙ ap not (same_refl super_admin))
    ∙ guard-open _ _ _ db _ named

approve-Db :
    (back : Backend) (c : Claims) (id action notes : Text) (q : UpgradeRequest) (db : Db)
    → c.role ≡ super_admin
    → same id [] ≡ false
    → to_lower (trim_space action) ≡ codes "approve"
    → back.query_fails ≡ false
    → back.exec_fails ≡ false
    → back.second_exec_fails ≡ false
    → Asked id q db
    → q.status ≡ codes "pending"
    → (review_upgrade_request back (some c) id (some (action, notes)) db).1
      ≡ set_role q.requested_role q.user_id (decided id c.user_id notes q db)
approve-Db back c id action notes q db super named act answers sends grants h pending =
    ap (λ (x : Reply × Db). x.1) (review-opens back c id action notes db super named)
    ∙ ap (λ a. (review_action back c.user_id id a notes db).1) act
    ∙ ap (λ (x : Reply × Db). x.1) (review_action-approve back c.user_id id notes db)
    ∙ ap (λ o. (review_found back c.user_id id (codes "approve") notes o db).1)
        (select_request-found back id q db answers h)
    ∙ review_found-pending back c.user_id id notes q db sends pending
    ∙ grant-approve back q _ grants
    ∙ ap (λ d. set_role q.requested_role q.user_id d)
        (unfold new_status same in set_review-found (codes "approved") c.user_id notes id q db h)

-- When a super_admin approves a pending request and the database answers, the request is marked as
-- approved by the reviewer, and the user it names has the requested role, whatever role that user had.
pub review_upgrade_request-approves :
    (back : Backend) (c : Claims) (id action notes : Text) (q : UpgradeRequest) (u : User) (db : Db)
    → c.role ≡ super_admin
    → same id [] ≡ false
    → to_lower (trim_space action) ≡ codes "approve"
    → back.query_fails ≡ false
    → back.exec_fails ≡ false
    → back.second_exec_fails ≡ false
    → Asked id q db
    → q.status ≡ codes "pending"
    → Has q.user_id u db
    → Asked id
        (approval c.user_id notes q)
        (review_upgrade_request back (some c) id (some (action, notes)) db).1
      × Has q.user_id
          (record u { role = q.requested_role })
          (review_upgrade_request back (some c) id (some (action, notes)) db).1
review_upgrade_request-approves back c id action notes q u db super named act answers sends grants h
      pending has =
    let eq =
      approve-Db back c id action notes q db super named act answers sends grants h pending in
    (
      ap (λ d. lookup id d.requests) eq
          ∙ ap (lookup id)
              (set_role-requests q.requested_role q.user_id (decided id c.user_id notes q db))
          ∙ lookup-put id id (approval c.user_id notes q) db.requests
          ∙ ap (λ b. if b then some (approval c.user_id notes q) else lookup id db.requests)
              (same_refl id),
      ap (λ d. lookup q.user_id d.users) eq
          ∙ set_role-found q.requested_role q.user_id u (decided id c.user_id notes q db) has,
    )
