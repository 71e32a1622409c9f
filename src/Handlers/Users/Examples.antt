-- ===== src/Handlers/Users/Examples.antt =====
-- Requests to the handlers of internal/handlers/auth.go.
use data_flow_agent_hub.Base.{
  Text, codes, same, lookup, trim_space, to_lower, List, [], ◌∷◌, true, false, some, ◌≡◌, refl, ◌≢◌,
  arith, all, not,
}
use data_flow_agent_hub.Rbac.{super_admin, normal_user, read_only_visitor}
use data_flow_agent_hub.Handlers.Users.{Backend, Claims, demo_workspace, not_super_admin}
use data_flow_agent_hub.Handlers.Users.Tables.{User, UpgradeRequest, Db}
use data_flow_agent_hub.Handlers.Users.Upgrades.{
  Command, deletes, changes_role, reviews, self_registers, handle, handle_all,
  review_upgrade_request,
}
use data_flow_agent_hub.Handlers.Users.Rows.{Has}
use data_flow_agent_hub.Handlers.Users.Steps.{by_super}
use data_flow_agent_hub.Handlers.Users.Changes.{Change}
use data_flow_agent_hub.Handlers.Users.Handled.{handle-Change}
use data_flow_agent_hub.Handlers.Users.Safety.{handle_all-super_admin, handle_all-outsiders}
use data_flow_agent_hub.Handlers.Users.Approval.{approval, review_upgrade_request-approves}
use data_flow_agent_hub.Handlers.Users.Reviews.{Asked, handle_all-reviewed}
use data_flow_agent_hub.Handlers.Users.Roles.{IsValid, handle_all-IsValid}

abbrev back : Backend
back = record {
  new_id = codes "n1";
  hash = λ password. some (codes "h");
  query_fails = false;
  exec_fails = false;
  second_exec_fails = false;
}

abbrev root : User
root = record {
  workspace = demo_workspace;
  name = codes "root";
  phone = [];
  email = codes "root@x";
  password_hash = codes "h";
  role = super_admin;
}

abbrev low : User
low = record root { name = codes "low"; email = codes "low@x"; role = normal_user }

abbrev request : Text → UpgradeRequest
request status = record {
  user_id = codes "r";
  requested_role = read_only_visitor;
  reason = [];
  status = status;
  reviewed_by = [];
  review_notes = [];
}

abbrev db : Db
db = record {
  users = (codes "r", root) ∷ (codes "l", low) ∷ [];
  requests = (codes "p", request (codes "pending")) ∷ (codes "q", request (codes "rejected")) ∷ [];
}

abbrev as_root : Claims
as_root = record { user_id = codes "x"; role = super_admin }

abbrev as_low : Claims
as_low = record { user_id = codes "l"; role = normal_user }

abbrev busy : List Command
busy =
    deletes back (some as_root) (codes "r")
    ∷ changes_role back (some as_root) (codes "r") (some (codes "normal_user"))
    ∷ changes_role back (some as_root) (codes "l") (some (codes " Data_Admin "))
    ∷ []

abbrev outside : List Command
outside =
    deletes back (some as_low) (codes "r")
    ∷ self_registers back (some (codes "new", codes "5", codes "pw"))
    ∷ reviews back (some as_low) (codes "p") (some (codes "approve", []))
    ∷ []

root_stays : Has (codes "r") root db
unfolding lookup same
root_stays = refl

handle-Change_example :
    Change
      (some as_root)
      db
      (handle (reviews back (some as_root) (codes "p") (some (codes "approve", []))) db).1
handle-Change_example =
    handle-Change (reviews back (some as_root) (codes "p") (some (codes "approve", []))) db

handle_all-super_admin_example : Has (codes "r") root (handle_all busy db)
handle_all-super_admin_example =
    handle_all-super_admin busy (codes "r") root db root_stays refl refl

outside_is : all (λ c. not (by_super c)) outside ≡ true
unfolding not_super_admin same super_admin normal_user
outside_is = refl

handle_all-outsiders_example : Has (codes "r") root (handle_all outside db)
handle_all-outsiders_example =
    handle_all-outsiders outside (codes "r") root db root_stays outside_is

rejected : Asked (codes "q") (request (codes "rejected")) db
unfolding lookup same
rejected = refl

rejected_is : codes "rejected" ≢ codes "pending"
rejected_is e = ground (arith, e)

handle_all-reviewed_example : Asked (codes "q") (request (codes "rejected")) (handle_all outside db)
handle_all-reviewed_example =
    handle_all-reviewed outside (codes "q") (request (codes "rejected")) db rejected rejected_is

pending : Asked (codes "p") (request (codes "pending")) db
unfolding lookup same
pending = refl

named : same (codes "p") [] ≡ false
unfolding same
named = refl

action : to_lower (trim_space (codes " Approve")) ≡ codes "approve"
unfolding to_lower trim_space
action = refl

-- the review takes the role of a super_admin away
review_upgrade_request-approves_example :
    Asked
      (codes "p")
      (approval (codes "x") [] (request (codes "pending")))
      (review_upgrade_request back (some as_root) (codes "p") (some (codes " Approve", [])) db).1
    × Has
        (codes "r")
        (record root { role = read_only_visitor })
        (review_upgrade_request back (some as_root) (codes "p") (some (codes " Approve", [])) db).1
review_upgrade_request-approves_example =
    review_upgrade_request-approves back as_root (codes "p") (codes " Approve") []
      (request (codes "pending")) root db refl named action refl refl refl pending refl root_stays

abbrev small : Db
small = record { users = []; requests = [] }

small-IsValid : IsValid small
unfolding lookup
small-IsValid = (λ i u h. absurd (cc h), λ j q h. absurd (cc h))

handle_all-IsValid_example : IsValid (handle_all outside small)
handle_all-IsValid_example = handle_all-IsValid outside small small-IsValid
