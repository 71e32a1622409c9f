-- ===== src/Handlers/Users/Rows.antt =====
-- internal/handlers/auth.go: what each statement on the tables leaves of the row of a user.
use data_flow_agent_hub.Base.{
  Text, codes, same, same_iff, lookup, lookup-put, lookup-remove, List, Bool, false, Option, none,
  some, if◌then◌else◌, arith, ◌≡◌, refl, Bool-cases, Option-cases, inl, inr, same_refl, ap, put,
  remove, if_cases, ◌∙◌,
}
use data_flow_agent_hub.Rbac.{super_admin}
use data_flow_agent_hub.Handlers.{guard-keeps}
use data_flow_agent_hub.Handlers.Users.{Backend, after_insert, target_role, found_role, on_target}
use data_flow_agent_hub.Handlers.Users.Tables.{
  User, Db, insert_user, set_role, with_role, without_row, delete_user_row, insert_request,
  pending_request,
}

-- the entry of a user
abbrev pub Has : Text → User → Db → Type 0
Has i u db = lookup i db.users ≡ some u

pub lookup-put_off {ℓ} :
    {V : Type ℓ} (k j : Text) (v : V) (m : List (Text × V))
    → same k j ≡ false
    → lookup j (put k v m) ≡ lookup j m
lookup-put_off k j v m off = lookup-put k j v m ∙ ap (λ b. if b then some v else lookup j m) off

pub insert_user-cases :
    (fails : Bool) (id : Text) (u : User) (db db' : Db)
    → insert_user fails id u db ≡ some db'
    → (lookup id db.users ≡ none) × (db' ≡ record db { users = put id u db.users })
insert_user-cases fails id u db db' e =
    unfold insert_user in
    elim (Option-cases (lookup id db.users)) [
      | inl free ↦ (free, ground (arith, free, e))
      | inr (w, taken) ↦ absurd (ground (arith, taken, e))
    ]

pub insert_user-Has :
    (i : Text) (v : User) (fails : Bool) (id : Text) (u : User) (db db' : Db)
    → Has i v db
    → insert_user fails id u db ≡ some db'
    → Has i v db'
insert_user-Has i v fails id u db db' h e =
    let (free, eq) = insert_user-cases fails id u db db' e in
    elim (Bool-cases (same id i)) [
      | inl at ↦ absurd (cc (h, free, (same_iff id i).0 at))
      | inr off ↦ cc (lookup-put_off id i u db.users off, h, eq)
    ]

pub after_insert-keeps {κ} :
    (P : Db → Type κ) (message : Text) (fields : List (Text × Text)) (db : Db) (o : Option Db)
    → P db
    → ((db' : Db) → o ≡ some db' → P db')
    → P (after_insert message fields db o).1
after_insert-keeps P message fields db none h next = unfold after_insert in h
after_insert-keeps P message fields db (some db') h next = unfold after_insert in next db' refl

pub with_role-Has :
    (i : Text) (v : User) (role id : Text) (o : Option User) (db : Db)
    → same id i ≡ false
    → Has i v db
    → Has i v (with_role role id o db)
unfolding with_role
with_role-Has i v role id none db off h = h
with_role-Has i v role id (some u) db off h =
    lookup-put_off id i (record u { role = role }) db.users off ∙ h

pub without_row-Has :
    (i : Text) (v : User) (workspace id : Text) (o : Option User) (db : Db)
    → same id i ≡ false
    → Has i v db
    → Has i v (without_row workspace id o db)
unfolding without_row
without_row-Has i v workspace id none db off h = h
without_row-Has i v workspace id (some u) db off h =
    if_cases (λ (d : Db). Has i v d) (same u.workspace workspace)
      (record db { users = remove id db.users }) db
      (λ e. lookup-remove id i db.users ∙ ap (λ b. if b then none else lookup i db.users) off ∙ h)
      (λ e. h)

found_role-some :
    (fails : Bool) (o : Option User) (r : Text)
    → found_role fails o ≡ some r
    → (u : User) × (o ≡ some u) × (r ≡ u.role)
found_role-some fails none r e = absurd (unfold found_role in cc e)
found_role-some fails (some u) r e = (u, refl, unfold found_role in ground (arith, e))

-- what holds of the new tables when the target is no super_admin holds of the result
pub on_target-keeps {κ} :
    (P : Db → Type κ) (o : Option Text) (message : Text) (fails : Bool) (db db' : Db)
    → P db
    → ((r : Text) → o ≡ some r → same r super_admin ≡ false → P db')
    → P (on_target o message fails db db').1
on_target-keeps P none message fails db db' h next = unfold on_target in h
on_target-keeps P (some r) message fails db db' h next =
    unfold on_target in
    guard-keeps P (same r super_admin) 400 message db _ h
      (λ low. guard-keeps P fails 500 (codes "db error") db _ h (λ sent. next r refl low))

-- A target that is read is no super_admin, so that its entry is another one than a super_admin's.
pub target-off :
    (i : Text) (v : User) (back : Backend) (id r : Text) (db : Db)
    → Has i v db
    → v.role ≡ super_admin
    → target_role back id db ≡ some r
    → same r super_admin ≡ false
    → same id i ≡ false
unfolding found_role target_role
target-off i v back id r db h role found low = elim (Bool-cases (same id i)) [
  | inr off ↦ off
  | inl at ↦
      let (u, there, same_role) = found_role-some back.query_fails (lookup id db.users) r found in
      absurd (cc (h, there, (same_iff id i).0 at, same_role, role, low, same_refl super_admin))
]

pub set_role-Has :
    (i : Text) (v : User) (role id : Text) (db : Db)
    → same id i ≡ false
    → Has i v db
    → Has i v (set_role role id db)
unfolding set_role
set_role-Has i v role id db off h = with_role-Has i v role id (lookup id db.users) db off h

pub delete_user_row-Has :
    (i : Text) (v : User) (workspace id : Text) (db : Db)
    → same id i ≡ false
    → Has i v db
    → Has i v (delete_user_row workspace id db)
unfolding delete_user_row
delete_user_row-Has i v workspace id db off h =
    without_row-Has i v workspace id (lookup id db.users) db off h

pub insert_request-cases :
    (fails : Bool) (id user role reason : Text) (db db' : Db)
    → insert_request fails id user role reason db ≡ some db'
    → (lookup id db.requests ≡ none)
      × (db' ≡ record db { requests = put id (pending_request user role reason) db.requests })
insert_request-cases fails id user role reason db db' e =
    unfold insert_request in
    elim (Option-cases (lookup id db.requests)) [
      | inl free ↦ (free, ground (arith, free, e))
      | inr (w, taken) ↦ absurd (ground (arith, taken, e))
    ]

pub insert_request-Has :
    (i : Text) (v : User) (fails : Bool) (id user role reason : Text) (db db' : Db)
    → Has i v db
    → insert_request fails id user role reason db ≡ some db'
    → Has i v db'
insert_request-Has i v fails id user role reason db db' h e =
    let (free, eq) = insert_request-cases fails id user role reason db db' e in cc (h, eq)
