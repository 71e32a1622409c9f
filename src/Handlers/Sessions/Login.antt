-- ===== src/Handlers/Sessions/Login.antt =====
-- `Login` of internal/handlers/handlers.go. What the database, bcrypt and the library of tokens answer
-- is a parameter, and so is whether the rate is exceeded.
use data_flow_agent_hub.Base.{
  Text, codes, same, trim_space, List, [], ◌∷◌, Bool, ◌&&◌, Option, none, some, if◌then◌else◌,
}
use data_flow_agent_hub.Sqlrun.Run.{Answer, ok, err}
use data_flow_agent_hub.Handlers.Users.{demo_workspace}
use data_flow_agent_hub.Handlers.Users.Tables.{User}
use data_flow_agent_hub.Handlers.Sessions.{Replied, refused, replied}

-- `Login`: the user of an address in the demo workspace, and what bcrypt says of the password
unfoldable pub find_user : Text → List (Text × User) → Option (Text × User)
find_user email [] = none
find_user email ((id, u) ∷ users) =
    let rest = find_user email users in
    if same u.workspace demo_workspace && same u.email email then some (id, u) else rest

unfoldable pub login_token : Text → Answer Text → Replied (Text × Text)
login_token role (err e) = refused 500 (codes "token")
login_token role (ok token) = replied 200 (token, role)

unfoldable pub login_user :
    (Text → Text → Bool)
    → (Text → Text → Answer Text)
    → Text
    → Option (Text × User)
    → Replied (Text × Text)
login_user matches sign password none = refused 401 (codes "invalid credentials")
login_user matches sign password (some (id, u)) =
    if matches password u.password_hash
    then login_token u.role (sign id u.role)
    else refused 401 (codes "invalid credentials")

unfoldable pub login_body :
    Bool
    → (Text → Text → Bool)
    → (Text → Text → Answer Text)
    → Option (Text × Text)
    → List (Text × User)
    → Replied (Text × Text)
login_body fails matches sign none users = refused 400 (codes "invalid json")
login_body fails matches sign (some (email, password)) users =
    if fails
    then refused 401 (codes "invalid credentials")
    else login_user matches sign password (find_user (trim_space email) users)

unfoldable pub login :
    Bool
    → Bool
    → (Text → Text → Bool)
    → (Text → Text → Answer Text)
    → Option (Text × Text)
    → List (Text × User)
    → Replied (Text × Text)
login limited fails matches sign body users =
    if limited then refused 429 (codes "rate limit") else login_body fails matches sign body users
