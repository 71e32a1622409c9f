-- ===== src/Handlers/Users/Steps.antt =====
-- internal/handlers/auth.go: the steps that the two tables take, as a relation, and the step of each
-- handler.
use data_flow_agent_hub.Base.{
  Text, codes, same, same_iff, lookup, List, Bool, true, false, not, ◌&&◌, Option, none, some,
  arith, ◌≡◌, ◌⊎◌, inl, inr, refl, trim_space, to_lower, Bool-cases, ap,
}
use data_flow_agent_hub.Rbac.{data_admin, normal_user, read_only_visitor, super_admin}
use data_flow_agent_hub.Handlers.{guard-keeps}
use data_flow_agent_hub.Handlers.Users.{
  Claims, Backend, RegisterRequest, not_super_admin, id_of, new_user, store_user, target_role,
  is_valid_role, demo_workspace, register, register_user, self_register, self_register_user,
  change_user_role, change_role_body, change_role_to, delete_user,
}
use data_flow_agent_hub.Handlers.Users.Tables.{
  UpgradeRequest, Db, insert_user, set_role, delete_user_row, insert_request, set_review,
}
use data_flow_agent_hub.Handlers.Users.Upgrades.{
  Command, registers, self_registers, changes_role, deletes, asks, reviews, handle, new_status,
  grant, select_request, create_request, create_request_body, create_upgrade_request, review_found,
  review_action, review_body, review_upgrade_request,
}
use data_flow_agent_hub.Handlers.Users.Rows.{after_insert-keeps, on_target-keeps}

-- the roles that a super_admin gives to a new user, and that a user can ask for
abbrev pub Assignable : Text → Type 0
Assignable role = (role ≡ data_admin) ⊎ (role ≡ read_only_visitor)

-- one change of the tables; the flags say that a super_admin asks for it, and that it is a review
pub data Step (super review : Bool) (db : Db) : Db → Type 0 where
  stays : Step super review db db
  adds :
      {db' : Db} (fails : Bool) (id name phone hashed role : Text)
      → (role ≡ normal_user) ⊎ ((super ≡ true) × Assignable role)
      → insert_user fails id (new_user name phone hashed role) db ≡ some db'
      → Step super review db db'
  changes :
      (back : Backend) (id r role : Text)
      → super ≡ true
      → target_role back id db ≡ some r
      → same r super_admin ≡ false
      → is_valid_role role ≡ true
      → Step super review db (set_role role id db)
  removes :
      (back : Backend) (id r : Text)
      → super ≡ true
      → target_role back id db ≡ some r
      → same r super_admin ≡ false
      → Step super review db (delete_user_row demo_workspace id db)
  asks_for :
      {db' : Db} (fails : Bool) (id user role reason : Text)
      → Assignable role
      → insert_request fails id user role reason db ≡ some db'
      → Step super review db db'
  decides :
      (back : Backend) (id reviewer action notes : Text) (q : UpgradeRequest)
      → super ≡ true
      → review ≡ true
      → lookup id db.requests ≡ some q
      → q.status ≡ codes "pending"
      → Step super review db
          (grant back action q (set_review (new_status action) reviewer notes id db))

-- whether the one who asks is a super_admin
abbrev pub by_super : Command → Bool
by_super (registers back claims body) = not (not_super_admin claims)
by_super (self_registers back body) = false
by_super (changes_role back claims id body) = not (not_super_admin claims)
by_super (deletes back claims id) = not (not_super_admin claims)
by_super (asks back claims body) = false
by_super (reviews back claims id body) = not (not_super_admin claims)

abbrev pub is_review : Command → Bool
is_review (reviews back claims id body) = true
is_review (registers back claims body) = false
is_review (self_registers back body) = false
is_review (changes_role back claims id body) = false
is_review (deletes back claims id) = false
is_review (asks back claims body) = false

store_user-Step :
    (super review : Bool) (o : Option Text) (back : Backend) (name phone role message : Text)
    (fields : List (Text × Text)) (db : Db)
    → (role ≡ normal_user) ⊎ ((super ≡ true) × Assignable role)
    → Step super review db (store_user o back name phone role message fields db).1
store_user-Step super review none back name phone role message fields db may =
    unfold store_user in stays
store_user-Step super review (some hashed) back name phone role message fields db may =
    unfold store_user in
    after_insert-keeps (λ d. Step super review db d) message fields db _ stays
      (λ db' e. adds back.exec_fails back.new_id name phone hashed role may e)

assignable :
    (role : Text)
    → (not (same role data_admin) && not (same role read_only_visitor)) ≡ false
    → Assignable role
assignable role e = elim (Bool-cases (same role data_admin)) [
  | inl is ↦ inl ((same_iff role data_admin).0 is)
  | inr other ↦ inr ((same_iff role read_only_visitor).0 (ground (arith, other, e)))
]

register_user-Step :
    (super review : Bool) (back : Backend) (name phone password role : Text) (db : Db)
    → super ≡ true
    → Step super review db (register_user back name phone password role db).1
unfolding register_user
register_user-Step super review back name phone password role db is =
    guard-keeps (λ d. Step super review db d) _ _ _ db _ stays
      (λ full.
        guard-keeps (λ d. Step super review db d) _ _ _ db _ stays
          (λ may.
            guard-keeps (λ d. Step super review db d) _ _ _ db _ stays
              (λ free.
                store_user-Step super review (back.hash password) back name phone role _ _ db
                  (inr (is, assignable role may)))))

register-Step :
    (review : Bool) (back : Backend) (claims : Option Claims) (body : Option RegisterRequest)
    (db : Db)
    → Step (not (not_super_admin claims)) review db (register back claims body db).1
unfolding register
register-Step review back claims none db =
    guard-keeps (λ d. Step (not (not_super_admin claims)) review db d) _ _ _ db _ stays
      (λ may. stays)
register-Step review back claims (some body) db =
    guard-keeps (λ d. Step (not (not_super_admin claims)) review db d) _ _ _ db _ stays
      (λ may. register_user-Step _ _ back _ _ body.password _ db (ap not may))

self_register-Step :
    (super review : Bool) (back : Backend) (body : Option (Text × Text × Text)) (db : Db)
    → Step super review db (self_register back body db).1
unfolding self_register self_register_user
self_register-Step super review back none db = stays
self_register-Step super review back (some (name, phone, password)) db =
    guard-keeps (λ d. Step super review db d) _ _ _ db _ stays
      (λ full.
        guard-keeps (λ d. Step super review db d) _ _ _ db _ stays
          (λ free.
            store_user-Step super review (back.hash password) back _ _ normal_user _ _ db
              (inl refl)))

not-false : (b : Bool) → not b ≡ false → b ≡ true
not-false b e = ground (arith, e)

change_role_body-Step :
    (super review : Bool) (back : Backend) (id : Text) (body : Option Text) (db : Db)
    → super ≡ true
    → Step super review db (change_role_body back id body db).1
unfolding change_role_body change_role_to
change_role_body-Step super review back id none db is = stays
change_role_body-Step super review back id (some role) db is =
    guard-keeps (λ d. Step super review db d) _ _ _ db _ stays
      (λ valid.
        on_target-keeps (λ d. Step super review db d) (target_role back id db) _ back.exec_fails db
          _ stays
          (λ r found low.
            changes back id r (to_lower (trim_space role)) is found low (not-false _ valid)))

change_user_role-Step :
    (review : Bool) (back : Backend) (claims : Option Claims) (id : Text) (body : Option Text)
    (db : Db)
    → Step (not (not_super_admin claims)) review db (change_user_role back claims id body db).1
unfolding change_user_role
change_user_role-Step review back claims id body db =
    guard-keeps (λ d. Step (not (not_super_admin claims)) review db d) _ _ _ db _ stays
      (λ may.
        guard-keeps (λ d. Step (not (not_super_admin claims)) review db d) _ _ _ db _ stays
          (λ named.
            guard-keeps (λ d. Step (not (not_super_admin claims)) review db d) _ _ _ db _ stays
              (λ other. change_role_body-Step _ _ back id body db (ap not may))))

delete_user-Step :
    (review : Bool) (back : Backend) (claims : Option Claims) (id : Text) (db : Db)
    → Step (not (not_super_admin claims)) review db (delete_user back claims id db).1
unfolding delete_user
delete_user-Step review back claims id db =
    guard-keeps (λ d. Step (not (not_super_admin claims)) review db d) _ _ _ db _ stays
      (λ may.
        guard-keeps (λ d. Step (not (not_super_admin claims)) review db d) _ _ _ db _ stays
          (λ named.
            guard-keeps (λ d. Step (not (not_super_admin claims)) review db d) _ _ _ db _ stays
              (λ other.
                on_target-keeps (λ d. Step (not (not_super_admin claims)) review db d)
                  (target_role back id db) _ back.exec_fails db _ stays
                  (λ r found low. removes back id r (ap not may) found low))))

create_upgrade_request-Step :
    (super review : Bool) (back : Backend) (claims : Option Claims) (body : Option (Text × Text))
    (db : Db)
    → Step super review db (create_upgrade_request back claims body db).1
unfolding create_upgrade_request create_request_body create_request
create_upgrade_request-Step super review back none body db = stays
create_upgrade_request-Step super review back (some c) none db = stays
create_upgrade_request-Step super review back (some c) (some (role, reason)) db =
    guard-keeps (λ d. Step super review db d) _ _ _ db _ stays
      (λ may.
        after_insert-keeps (λ d. Step super review db d) _ _ db _ stays
          (λ db' e.
            asks_for back.exec_fails back.new_id c.user_id (to_lower (trim_space role)) reason
              (assignable _ may) e))

review_found-Step :
    (super review : Bool) (back : Backend) (reviewer id action notes : Text)
    (o : Option UpgradeRequest) (db : Db)
    → super ≡ true
    → review ≡ true
    → ((q : UpgradeRequest) → o ≡ some q → lookup id db.requests ≡ some q)
    → Step super review db (review_found back reviewer id action notes o db).1
unfolding review_found
review_found-Step super review back reviewer id action notes none db is it found = stays
review_found-Step super review back reviewer id action notes (some q) db is it found =
    guard-keeps (λ d. Step super review db d) _ _ _ db _ stays
      (λ pending.
        guard-keeps (λ d. Step super review db d) _ _ _ db _ stays
          (λ sent.
            decides back id reviewer action notes q is it (found q refl)
              ((same_iff q.status (codes "pending")).0 (not-false _ pending))))

select_request_sound :
    (back : Backend) (id : Text) (db : Db) (q : UpgradeRequest)
    → select_request back id db ≡ some q
    → lookup id db.requests ≡ some q
unfolding select_request
select_request_sound back id db q e = ground (arith, e)

review_body-Step :
    (super review : Bool) (back : Backend) (reviewer id : Text) (body : Option (Text × Text))
    (db : Db)
    → super ≡ true
    → review ≡ true
    → Step super review db (review_body back reviewer id body db).1
unfolding review_body review_action
review_body-Step super review back reviewer id none db is it = stays
review_body-Step super review back reviewer id (some (action, notes)) db is it =
    guard-keeps (λ d. Step super review db d) _ _ _ db _ stays
      (λ may.
        review_found-Step super review back reviewer id _ notes (select_request back id db) db is it
          (select_request_sound back id db))

review_upgrade_request-Step :
    (review : Bool) (back : Backend) (claims : Option Claims) (id : Text)
    (body : Option (Text × Text)) (db : Db)
    → review ≡ true
    → Step
        (not (not_super_admin claims))
        review
        db
        (review_upgrade_request back claims id body db).1
unfolding review_upgrade_request
review_upgrade_request-Step review back claims id body db it =
    guard-keeps (λ d. Step (not (not_super_admin claims)) review db d) _ _ _ db _ stays
      (λ may.
        guard-keeps (λ d. Step (not (not_super_admin claims)) review db d) _ _ _ db _ stays
          (λ named. review_body-Step _ _ back (id_of claims) id body db (ap not may) it))

-- each request takes one of the steps
pub handle-Step : (c : Command) (db : Db) → Step (by_super c) (is_review c) db (handle c db).1
unfolding handle
handle-Step (registers back claims body) db = register-Step false back claims body db
handle-Step (self_registers back body) db = self_register-Step false false back body db
handle-Step (changes_role back claims id body) db =
    change_user_role-Step false back claims id body db
handle-Step (deletes back claims id) db = delete_user-Step false back claims id db
handle-Step (asks back claims body) db = create_upgrade_request-Step false false back claims body db
handle-Step (reviews back claims id body) db =
    review_upgrade_request-Step true back claims id body db refl
