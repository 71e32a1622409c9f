-- ===== src/Handlers/Users/Safety.antt =====
-- internal/handlers/auth.go: what all the steps of the two tables keep.
use mathlib.Core.Path.{subst}
use data_flow_agent_hub.Base.{Text, List, [], ◌∷◌, Bool, true, false, not, all, arith, ◌≡◌, &&-true}
use data_flow_agent_hub.Rbac.{super_admin}
use data_flow_agent_hub.Handlers.Users.{demo_workspace, new_user}
use data_flow_agent_hub.Handlers.Users.Tables.{User, Db}
use data_flow_agent_hub.Handlers.Users.Upgrades.{Command, handle, handle_all}
use data_flow_agent_hub.Handlers.Users.Rows.{
  Has, insert_user-Has, insert_request-Has, set_role-Has, delete_user_row-Has, target-off,
}
use data_flow_agent_hub.Handlers.Users.Steps.{
  Step, stays, adds, changes, removes, asks_for, decides, by_super, is_review, handle-Step,
}

Step-super_admin :
    (super : Bool) (i : Text) (v : User) (db db' : Db)
    → Has i v db
    → v.role ≡ super_admin
    → Step super false db db'
    → Has i v db'
Step-super_admin super i v db _ h role stays = h
Step-super_admin super i v db db' h role (adds fails id name phone hashed r may e) =
    insert_user-Has i v fails id (new_user name phone hashed r) db db' h e
Step-super_admin super i v db _ h role (changes back id r to is found low valid) =
    set_role-Has i v to id db (target-off i v back id r db h role found low) h
Step-super_admin super i v db _ h role (removes back id r is found low) =
    delete_user_row-Has i v demo_workspace id db (target-off i v back id r db h role found low) h
Step-super_admin super i v db db' h role (asks_for fails id user r reason may e) =
    insert_request-Has i v fails id user r reason db db' h e
Step-super_admin super i v db _ h role
      (decides back id reviewer action notes q is it found pending) =
    absurd (ground (arith, it))

-- Whatever requests come in, in any order and from whomever, the row of a super_admin is neither
-- changed nor removed, as long as none of them is a review of a request for a role.
pub handle_all-super_admin :
    (cs : List Command) (i : Text) (v : User) (db : Db)
    → Has i v db
    → v.role ≡ super_admin
    → all (λ c. not (is_review c)) cs ≡ true
    → Has i v (handle_all cs db)
unfolding handle_all
handle_all-super_admin [] i v db h role none_reviews = h
handle_all-super_admin (c ∷ cs) i v db h role none_reviews =
    let (first, rest) =
      &&-true (not (is_review c)) (all (λ x. not (is_review x)) cs) none_reviews in
    let step : Step (by_super c) false db (handle c db).1 =
      subst (λ b. Step (by_super c) b db (handle c db).1) (ground (arith, first))
        (handle-Step c db) in
    handle_all-super_admin cs i v (handle c db).1
      (Step-super_admin (by_super c) i v db (handle c db).1 h role step) role rest

Step-outsider :
    (review : Bool) (i : Text) (v : User) (db db' : Db)
    → Has i v db
    → Step false review db db'
    → Has i v db'
Step-outsider review i v db _ h stays = h
Step-outsider review i v db db' h (adds fails id name phone hashed r may e) =
    insert_user-Has i v fails id (new_user name phone hashed r) db db' h e
Step-outsider review i v db _ h (changes back id r to is found low valid) =
    absurd (ground (arith, is))
Step-outsider review i v db _ h (removes back id r is found low) = absurd (ground (arith, is))
Step-outsider review i v db db' h (asks_for fails id user r reason may e) =
    insert_request-Has i v fails id user r reason db db' h e
Step-outsider review i v db _ h (decides back id reviewer action notes q is it found pending) =
    absurd (ground (arith, is))

-- Requests of those who are no super_admin, whatever their number and order, leave the row of every
-- user as it is: nobody gets a higher role that way.
pub handle_all-outsiders :
    (cs : List Command) (i : Text) (v : User) (db : Db)
    → Has i v db
    → all (λ c. not (by_super c)) cs ≡ true
    → Has i v (handle_all cs db)
unfolding handle_all
handle_all-outsiders [] i v db h outside = h
handle_all-outsiders (c ∷ cs) i v db h outside =
    let (first, rest) = &&-true (not (by_super c)) (all (λ x. not (by_super x)) cs) outside in
    let step : Step false (is_review c) db (handle c db).1 =
      subst (λ b. Step b (is_review c) db (handle c db).1) (ground (arith, first))
        (handle-Step c db) in
    handle_all-outsiders cs i v (handle c db).1
      (Step-outsider (is_review c) i v db (handle c db).1 h step) rest
