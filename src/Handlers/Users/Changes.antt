-- ===== src/Handlers/Users/Changes.antt =====
-- internal/handlers/auth.go: what the handlers may do to the two tables, as a specification in terms of
-- their rows alone.
use data_flow_agent_hub.Base.{
  Text, codes, lookup, put, remove, [], ◌++◌, Option, none, some, ◌≡◌, ◌≢◌, ◌⊎◌,
}
use data_flow_agent_hub.Handlers.Users.{Claims}
use data_flow_agent_hub.Handlers.Users.Tables.{User, UpgradeRequest, Db}
use data_flow_agent_hub.Handlers.Users.Upgrades.{
  Command, registers, self_registers, changes_role, deletes, asks, reviews,
}

-- the roles that a super_admin gives to a new user, and that a user can ask for
abbrev pub IsHigher : Text → Type 0
IsHigher role = (role ≡ codes "data_admin") ⊎ (role ≡ codes "read_only_visitor")

abbrev pub IsRole : Text → Type 0
IsRole role = (role ≡ codes "super_admin") ⊎ ((role ≡ codes "normal_user") ⊎ IsHigher role)

-- whose claims a request carries, and that they are those of a super_admin
abbrev pub caller_of : Command → Option Claims
caller_of (registers back claims body) = claims
caller_of (self_registers back body) = none
caller_of (changes_role back claims id body) = claims
caller_of (deletes back claims id) = claims
caller_of (asks back claims body) = claims
caller_of (reviews back claims id body) = claims

abbrev pub BySuper : Option Claims → Type 0
BySuper claims = (c : Claims) × (claims ≡ some c) × (c.role ≡ codes "super_admin")

-- One change of the rows, for a caller.
pub data Change (claims : Option Claims) (db db' : Db) : Type 0 where
  nothing : db' ≡ db → Change claims db db'
  new_one :
      (id name phone hashed role : Text)
      → (role ≡ codes "normal_user") ⊎ (BySuper claims × IsHigher role)
      → lookup id db.users ≡ none
      → db' ≡ record db {
        users =
            put id
              (record {
                workspace = codes "00000000-0000-4000-8000-000000000001";
                name = name;
                phone = phone;
                email = phone ++ codes "@phone.local";
                password_hash = hashed;
                role = role;
              })
              db.users;
      }
      → Change claims db db'
  new_role :
      (id role : Text) (u : User)
      → BySuper claims
      → lookup id db.users ≡ some u
      → u.workspace ≡ codes "00000000-0000-4000-8000-000000000001"
      → u.role ≢ codes "super_admin"
      → IsRole role
      → db' ≡ record db { users = put id (record u { role = role }) db.users }
      → Change claims db db'
  removal :
      (id : Text) (u : User)
      → BySuper claims
      → lookup id db.users ≡ some u
      → u.workspace ≡ codes "00000000-0000-4000-8000-000000000001"
      → u.role ≢ codes "super_admin"
      → db' ≡ record db { users = remove id db.users }
      → Change claims db db'
  request :
      (id user role reason : Text)
      → IsHigher role
      → lookup id db.requests ≡ none
      → db' ≡ record db {
        requests =
            put id
              (record {
                user_id = user;
                requested_role = role;
                reason = reason;
                status = codes "pending";
                reviewed_by = [];
                review_notes = [];
              })
              db.requests;
      }
      → Change claims db db'
  decision :
      (id reviewer notes status : Text) (q : UpgradeRequest)
      → BySuper claims
      → lookup id db.requests ≡ some q
      → q.status ≡ codes "pending"
      → (status ≡ codes "approved") ⊎ (status ≡ codes "rejected")
      → db' ≡ record db {
        requests =
            put id
              (record q { status = status; reviewed_by = reviewer; review_notes = notes })
              db.requests;
      }
      → Change claims db db'
  approval_with_role :
      (id reviewer notes : Text) (q : UpgradeRequest) (u : User)
      → BySuper claims
      → lookup id db.requests ≡ some q
      → q.status ≡ codes "pending"
      → lookup q.user_id db.users ≡ some u
      → db' ≡ record {
        users = put q.user_id (record u { role = q.requested_role }) db.users;
        requests =
            put id
              (record q { status = codes "approved"; reviewed_by = reviewer; review_notes = notes })
              db.requests;
      }
      → Change claims db db'
