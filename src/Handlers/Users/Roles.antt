-- ===== src/Handlers/Users/Roles.antt =====
-- internal/handlers/auth.go: the roles that the two tables hold.
use mathlib.Core.Path.{subst}
use data_flow_agent_hub.Base.{
  Text, codes, same, lookup, lookup-put, lookup-remove, put, remove, List, [], ◌∷◌, Bool, true,
  Option, none, some, arith, ◌≡◌, ◌⊎◌, sym, inl, inr, refl, ap, Bool-cases, if_cases, not, ◌&&◌,
}
use data_flow_agent_hub.Rbac.{data_admin, normal_user, read_only_visitor, super_admin}
use data_flow_agent_hub.Handlers.Users.{Backend, demo_workspace, new_user, is_valid_role}
use data_flow_agent_hub.Handlers.Users.Tables.{
  User, UpgradeRequest, Db, set_role, with_role, delete_user_row, without_row, pending_request,
  set_review, with_review,
}
use data_flow_agent_hub.Handlers.Users.Upgrades.{Command, handle, handle_all, grant, new_status}
use data_flow_agent_hub.Handlers.Users.Rows.{Has, insert_user-cases, insert_request-cases}
use data_flow_agent_hub.Handlers.Users.Steps.{
  Step, stays, adds, changes, removes, asks_for, decides, Assignable, by_super, is_review,
  handle-Step,
}
use data_flow_agent_hub.Handlers.Users.Reviews.{Asked}

-- every user has one of the four roles, and every request asks for a role that a user may ask for
abbrev pub IsValid : Db → Type 0
IsValid db =
    ((i : Text) (u : User) → Has i u db → is_valid_role u.role ≡ true)
    × ((j : Text) (q : UpgradeRequest) → Asked j q db → Assignable q.requested_role)

lookup-put_cases {ℓ} :
    {V : Type ℓ} (k j : Text) (v w : V) (m : List (Text × V))
    → lookup j (put k v m) ≡ some w
    → (v ≡ w) ⊎ (lookup j m ≡ some w)
lookup-put_cases k j v w m h = elim (Bool-cases (same k j)) [
  | inl at ↦ inl (ground (arith, at, lookup-put k j v m, h))
  | inr off ↦ inr (ground (arith, off, lookup-put k j v m, h))
]

lookup-remove-some {ℓ} :
    {V : Type ℓ} (k j : Text) (w : V) (m : List (Text × V))
    → lookup j (remove k m) ≡ some w
    → lookup j m ≡ some w
lookup-remove-some k j w m h = elim (Bool-cases (same k j)) [
  | inl at ↦ ground (arith, at, lookup-remove k j m, h)
  | inr off ↦ ground (arith, off, lookup-remove k j m, h)
]

is_valid_role-Assignable : (role : Text) → Assignable role → is_valid_role role ≡ true
unfolding is_valid_role lookup same data_admin normal_user read_only_visitor super_admin
is_valid_role-Assignable role (inl e) = ap is_valid_role e
is_valid_role-Assignable role (inr e) = ap is_valid_role e

is_valid_role-new :
    (super : Bool) (role : Text)
    → (role ≡ normal_user) ⊎ ((super ≡ true) × Assignable role)
    → is_valid_role role ≡ true
unfolding is_valid_role lookup same data_admin normal_user read_only_visitor super_admin
is_valid_role-new super role (inl e) = ap is_valid_role e
is_valid_role-new super role (inr (is, may)) = is_valid_role-Assignable role may

put_users-IsValid :
    (id : Text) (u : User) (db : Db)
    → IsValid db
    → is_valid_role u.role ≡ true
    → IsValid (record db { users = put id u db.users })
put_users-IsValid id u db (roles, asked) valid = (
  λ i v h. elim (lookup-put_cases id i u v db.users h) [
    | inl e ↦ cc (e, valid)
    | inr old ↦ roles i v old
  ],
  asked,
)

put_requests-IsValid :
    (id : Text) (q : UpgradeRequest) (db : Db)
    → IsValid db
    → Assignable q.requested_role
    → IsValid (record db { requests = put id q db.requests })
put_requests-IsValid id q db (roles, asked) may = (
  roles,
  λ j p h. elim (lookup-put_cases id j q p db.requests h) [
    | inl e ↦ subst (λ (x : UpgradeRequest). Assignable x.requested_role) e may
    | inr old ↦ asked j p old
  ],
)

with_role-IsValid :
    (role id : Text) (o : Option User) (db : Db)
    → IsValid db
    → is_valid_role role ≡ true
    → IsValid (with_role role id o db)
unfolding with_role
with_role-IsValid role id none db valid may = valid
with_role-IsValid role id (some u) db valid may =
    put_users-IsValid id (record u { role = role }) db valid may

set_role-IsValid :
    (role id : Text) (db : Db)
    → IsValid db
    → is_valid_role role ≡ true
    → IsValid (set_role role id db)
unfolding set_role
set_role-IsValid role id db valid may = with_role-IsValid role id (lookup id db.users) db valid may

without_row-IsValid :
    (workspace id : Text) (o : Option User) (db : Db)
    → IsValid db
    → IsValid (without_row workspace id o db)
unfolding without_row
without_row-IsValid workspace id none db valid = valid
without_row-IsValid workspace id (some u) db valid =
    if_cases IsValid (same u.workspace workspace) (record db { users = remove id db.users }) db
      (λ e. (λ i v h. valid.0 i v (lookup-remove-some id i v db.users h), valid.1)) (λ e. valid)

delete_user_row-IsValid :
    (workspace id : Text) (db : Db) → IsValid db → IsValid (delete_user_row workspace id db)
unfolding delete_user_row
delete_user_row-IsValid workspace id db valid =
    without_row-IsValid workspace id (lookup id db.users) db valid

with_review-IsValid :
    (status reviewer notes id : Text) (o : Option UpgradeRequest) (db : Db)
    → IsValid db
    → lookup id db.requests ≡ o
    → IsValid (with_review status reviewer notes id o db)
unfolding with_review
with_review-IsValid status reviewer notes id none db valid found = valid
with_review-IsValid status reviewer notes id (some q) db valid found =
    put_requests-IsValid id _ db valid (valid.1 id q found)

set_review-IsValid :
    (status reviewer notes id : Text) (db : Db)
    → IsValid db
    → IsValid (set_review status reviewer notes id db)
unfolding set_review
set_review-IsValid status reviewer notes id db valid =
    with_review-IsValid status reviewer notes id (lookup id db.requests) db valid refl

grant-IsValid :
    (back : Backend) (action : Text) (q : UpgradeRequest) (db : Db)
    → IsValid db
    → Assignable q.requested_role
    → IsValid (grant back action q db)
unfolding grant
grant-IsValid back action q db valid may =
    if_cases IsValid (same action (codes "approve") && not back.second_exec_fails)
      (set_role q.requested_role q.user_id db) db
      (λ e. set_role-IsValid q.requested_role q.user_id db valid (is_valid_role-Assignable _ may))
      (λ e. valid)

Step-IsValid :
    (super review : Bool) (db db' : Db) → IsValid db → Step super review db db' → IsValid db'
Step-IsValid super review db _ valid stays = valid
Step-IsValid super review db db' valid (adds fails id name phone hashed r may e) =
    let (free, eq) = insert_user-cases fails id (new_user name phone hashed r) db db' e in
    subst IsValid (sym eq) (
      put_users-IsValid id (new_user name phone hashed r) db valid
        (unfold new_user in is_valid_role-new super r may))
Step-IsValid super review db _ valid (changes back id r to is found low may) =
    set_role-IsValid to id db valid may
Step-IsValid super review db _ valid (removes back id r is found low) =
    delete_user_row-IsValid demo_workspace id db valid
Step-IsValid super review db db' valid (asks_for fails id user r reason may e) =
    let (free, eq) = insert_request-cases fails id user r reason db db' e in
    subst IsValid (sym eq) (
      put_requests-IsValid id (pending_request user r reason) db valid
        (unfold pending_request in may))
Step-IsValid super review db _ valid (decides back id reviewer action notes q is it found pending) =
    grant-IsValid back action q _
      (set_review-IsValid (new_status action) reviewer notes id db valid) (valid.1 id q found)

-- Whatever requests come in, every user has one of the four valid roles, and every stored request
-- asks for data_admin or read_only_visitor, if that was so before.
pub handle_all-IsValid : (cs : List Command) (db : Db) → IsValid db → IsValid (handle_all cs db)
unfolding handle_all
handle_all-IsValid [] db valid = valid
handle_all-IsValid (c ∷ cs) db valid =
    handle_all-IsValid cs (handle c db).1
      (Step-IsValid (by_super c) (is_review c) db (handle c db).1 valid (handle-Step c db))
