-- ===== src/Handlers/Users/Handled.antt =====
-- internal/handlers/auth.go: the handlers do to the two tables what Changes lists, and no more.
use data_flow_agent_hub.Base.{
  Text, codes, same, same_iff, lookup, put, remove, Bool, true, false, not, ◌&&◌, Option, none,
  some, arith, ◌≡◌, ◌≢◌, ◌⊎◌, ◌∙◌, sym, ap, inl, inr, refl, Bool-cases, Option-cases, if_true,
  if_false, if_cases, &&-true,
}
use data_flow_agent_hub.Rbac.{data_admin, normal_user, read_only_visitor, super_admin}
use data_flow_agent_hub.Handlers.Users.{
  Claims, Backend, not_super_admin, new_user, target_role, found_role, is_valid_role,
  demo_workspace,
}
use data_flow_agent_hub.Handlers.Users.Tables.{
  User, UpgradeRequest, Db, set_role, with_role, delete_user_row, without_row, pending_request,
  set_review,
}
use data_flow_agent_hub.Handlers.Users.Upgrades.{
  Command, registers, self_registers, changes_role, deletes, asks, reviews, handle, new_status,
  grant,
}
use data_flow_agent_hub.Handlers.Users.Rows.{insert_user-cases, insert_request-cases}
use data_flow_agent_hub.Handlers.Users.Approval.{set_review-found}
use data_flow_agent_hub.Handlers.Users.Steps.{
  Step, stays, adds, changes, removes, asks_for, decides, by_super, is_review, handle-Step,
}
use data_flow_agent_hub.Handlers.Users.Changes.{
  IsRole, caller_of, BySuper, Change, nothing, new_one, new_role, removal, request, decision,
  approval_with_role,
}

target-found :
    (back : Backend) (id r : Text) (db : Db)
    → target_role back id db ≡ some r
    → (u : User) × (lookup id db.users ≡ some u) × (u.workspace ≡ demo_workspace) × (u.role ≡ r)
unfolding target_role found_role
target-found back id r db e = found back.query_fails (lookup id db.users) e
  where
    found :
        (fails : Bool) (o : Option User)
        → found_role fails o ≡ some r
        → (u : User) × (o ≡ some u) × (u.workspace ≡ demo_workspace) × (u.role ≡ r)
    found fails none h = absurd (cc h)
    found fails (some u) h = elim (Bool-cases (same u.workspace demo_workspace)) [
      | inl is ↦ (u, refl, (same_iff u.workspace demo_workspace).0 is, ground (arith, h))
      | inr off ↦ absurd (ground (arith, off, h))
    ]

low-role :
    (u : User) (r : Text) → u.role ≡ r → same r super_admin ≡ false → u.role ≢ codes "super_admin"
unfolding super_admin
low-role u r e low is =
    absurd (ground (arith, (same_iff r (codes "super_admin")).1 (sym e ∙ is), low))

is_valid_role-IsRole : (role : Text) → is_valid_role role ≡ true → IsRole role
unfolding is_valid_role lookup super_admin data_admin normal_user read_only_visitor
is_valid_role-IsRole role h = ground (
  arith,
  h,
  same_iff (codes "super_admin") role,
  same_iff (codes "normal_user") role,
  same_iff (codes "data_admin") role,
  same_iff (codes "read_only_visitor") role,
)

not_super_admin-BySuper :
    (claims : Option Claims) → not (not_super_admin claims) ≡ true → BySuper claims
unfolding not_super_admin super_admin
not_super_admin-BySuper none h = absurd (ground (arith, h))
not_super_admin-BySuper (some c) h =
    (c, refl, (same_iff c.role (codes "super_admin")).0 (ground (arith, h)))

by_super-BySuper : (c : Command) → by_super c ≡ true → BySuper (caller_of c)
by_super-BySuper (registers back claims body) h = not_super_admin-BySuper claims h
by_super-BySuper (self_registers back body) h = absurd (ground (arith, h))
by_super-BySuper (changes_role back claims id body) h = not_super_admin-BySuper claims h
by_super-BySuper (deletes back claims id) h = not_super_admin-BySuper claims h
by_super-BySuper (asks back claims body) h = absurd (ground (arith, h))
by_super-BySuper (reviews back claims id body) h = not_super_admin-BySuper claims h

set_role-row :
    (role id : Text) (u : User) (db : Db)
    → lookup id db.users ≡ some u
    → set_role role id db ≡ record db { users = put id (record u { role = role }) db.users }
unfolding set_role with_role
set_role-row role id u db h = ap (λ o. with_role role id o db) h

set_role-none : (role id : Text) (db : Db) → lookup id db.users ≡ none → set_role role id db ≡ db
unfolding set_role with_role
set_role-none role id db h = ap (λ o. with_role role id o db) h

delete_user_row-row :
    (id : Text) (u : User) (db : Db)
    → lookup id db.users ≡ some u
    → u.workspace ≡ demo_workspace
    → delete_user_row demo_workspace id db ≡ record db { users = remove id db.users }
unfolding delete_user_row without_row
delete_user_row-row id u db h w =
    ap (λ o. without_row demo_workspace id o db) h
    ∙ if_true _ _ _ ((same_iff u.workspace demo_workspace).1 w)

approve-reject : same (codes "approve") (codes "reject") ≡ false
unfolding same
approve-reject = refl

module _ (claims : Option Claims) (db : Db) where
  decided : Text → Text → Text → Text → UpgradeRequest → Db
  decided id reviewer notes status q = record db {
    requests =
        put id (record q { status = status; reviewed_by = reviewer; review_notes = notes })
          db.requests;
  }

  new_status-cases :
      (action : Text)
      → (same action (codes "approve") ≡ true → new_status action ≡ codes "approved")
        × ((new_status action ≡ codes "approved") ⊎ (new_status action ≡ codes "rejected"))
  unfolding new_status
  new_status-cases action = elim (Bool-cases (same action (codes "reject"))) [
    | inl rejects ↦ (
      λ h.
          let e = ap (λ a. same a (codes "reject")) ((same_iff action (codes "approve")).0 h) in
          absurd (ground (arith, e, rejects, approve-reject)),
      inr (if_true _ _ _ rejects),
    )
    | inr other ↦ (λ h. if_false _ _ _ other, inl (if_false _ _ _ other))
  ]

  grants-Change :
      (id reviewer notes : Text) (q : UpgradeRequest)
      → BySuper claims
      → lookup id db.requests ≡ some q
      → q.status ≡ codes "pending"
      → Change claims db
          (set_role q.requested_role q.user_id (decided id reviewer notes (codes "approved") q))
  unfolding decided
  grants-Change id reviewer notes q super found pending =
      elim (Option-cases (lookup q.user_id db.users)) [
        | inl missing ↦
            decision id reviewer notes (codes "approved") q super found pending (inl refl)
              (set_role-none q.requested_role q.user_id _ missing)
        | inr (u, there) ↦
            approval_with_role id reviewer notes q u super found pending there
              (set_role-row q.requested_role q.user_id u _ there)
      ]

  decides-Change :
      (back : Backend) (id reviewer action notes : Text) (q : UpgradeRequest)
      → BySuper claims
      → lookup id db.requests ≡ some q
      → q.status ≡ codes "pending"
      → Change claims db (grant back action q (set_review (new_status action) reviewer notes id db))
  unfolding grant decided
  decides-Change back id reviewer action notes q super found pending =
      rw (set_review-found (new_status action) reviewer notes id q db found) (
        if_cases (Change claims db) (same action (codes "approve") && not back.second_exec_fails) _
          _
          (λ approves.
            rw ((new_status-cases action).0 (&&-true _ _ approves).0)
              (grants-Change id reviewer notes q super found pending))
          (λ _.
            decision id reviewer notes (new_status action) q super found pending
              (new_status-cases action).1 refl))

  Step-Change :
      (super review : Bool) (db' : Db)
      → (super ≡ true → BySuper claims)
      → Step super review db db'
      → Change claims db db'
  unfolding new_user pending_request demo_workspace data_admin normal_user read_only_visitor
  Step-Change super review _ by stays = nothing refl
  Step-Change super review db' by (adds fails id name phone hashed role may e) =
      let (free, eq) = insert_user-cases fails id _ db db' e in
      new_one id name phone hashed role
        (elim may [ inl low ↦ inl low | inr (is, high) ↦ inr (by is, high) ]) free eq
  Step-Change super review _ by (changes back id r role is found low valid) =
      let (u, there, home, named) = target-found back id r db found in
      new_role id role u (by is) there home (low-role u r named low)
        (is_valid_role-IsRole role valid) (set_role-row role id u db there)
  Step-Change super review _ by (removes back id r is found low) =
      let (u, there, home, named) = target-found back id r db found in
      removal id u (by is) there home (low-role u r named low)
        (delete_user_row-row id u db there home)
  Step-Change super review db' by (asks_for fails id user role reason may e) =
      let (free, eq) = insert_request-cases fails id user role reason db db' e in
      request id user role reason may free eq
  Step-Change super review _ by (decides back id reviewer action notes q is it found pending) =
      decides-Change back id reviewer action notes q (by is) found pending

-- Every request changes the two tables by one of these changes of rows, or not at all: a new user of the
-- demo workspace whose role is normal_user, or data_admin or read_only_visitor where a super_admin
-- asks for it; for a super_admin, the role of a user of that workspace who is no super_admin, or
-- the removal of that user; a new pending request for data_admin or read_only_visitor; and, for a
-- super_admin, the decision on a pending request, either alone or, where it is an approval, with the
-- requested role for the user that the request names.
pub handle-Change : (c : Command) (db : Db) → Change (caller_of c) db (handle c db).1
handle-Change c db =
    Step-Change (caller_of c) db (by_super c) (is_review c) (handle c db).1 (by_super-BySuper c)
      (handle-Step c db)
