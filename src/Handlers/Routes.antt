-- ===== src/Handlers/Routes.antt =====
-- `Routes` of internal/handlers/handlers.go: the gates in front of each handler.
use data_flow_agent_hub.Base.{
  ℕ, Text, codes, same, List, [], ◌∷◌, ◌&&◌, Option, none, some, if◌then◌else◌,
}
use data_flow_agent_hub.Rbac.{normal_user, data_admin, super_admin}
use data_flow_agent_hub.Sqlrun.Run.{Answer}
use data_flow_agent_hub.Auth.{Jwt, Gate, auth, require}

-- whom a route is for: anyone, a valid token, or a token of a role
pub data Access : Type 0 where
  public authenticated : Access
  at_least : Text → Access

pub record Route : Type 0 where
  pub method : Text
  pub path : Text
  pub access : Access

abbrev route : Text → Text → Access → Route
route method path access = record { method = method; path = path; access = access }

-- the routes of the handlers, in the order of the source
abbrev pub routes : List Route
routes =
    route (codes "GET") (codes "/health") public
    ∷ route (codes "GET") (codes "/version") public
    ∷ route (codes "POST") (codes "/v1/auth/login") public
    ∷ route (codes "POST") (codes "/v1/auth/self-register") public
    ∷ route (codes "GET") (codes "/v1/sessions") authenticated
    ∷ route (codes "POST") (codes "/v1/sessions") authenticated
    ∷ route (codes "GET") (codes "/v1/sessions/{sessionID}/messages") authenticated
    ∷ route (codes "POST") (codes "/v1/sessions/{sessionID}/messages") authenticated
    ∷ route (codes "GET") (codes "/v1/sessions/{sessionID}/stream") authenticated
    ∷ route (codes "POST") (codes "/v1/sessions/{sessionID}/sse-token") authenticated
    ∷ route (codes "POST") (codes "/v1/auth/register") (at_least super_admin)
    ∷ route (codes "GET") (codes "/v1/users") (at_least super_admin)
    ∷ route (codes "PUT") (codes "/v1/users/{id}/role") (at_least super_admin)
    ∷ route (codes "DELETE") (codes "/v1/users/{id}") (at_least super_admin)
    ∷ route (codes "POST") (codes "/v1/auth/upgrade-request") authenticated
    ∷ route (codes "GET") (codes "/v1/auth/upgrade-requests") (at_least super_admin)
    ∷ route (codes "PUT") (codes "/v1/auth/upgrade-requests/{id}") (at_least super_admin)
    ∷ route (codes "GET") (codes "/v1/data-sources") authenticated
    ∷ route (codes "POST") (codes "/v1/data-sources") (at_least data_admin)
    ∷ route (codes "POST") (codes "/v1/data-sources/{id}/test") (at_least normal_user)
    ∷ route (codes "PUT") (codes "/v1/data-sources/{id}") (at_least super_admin)
    ∷ route (codes "DELETE") (codes "/v1/data-sources/{id}") (at_least super_admin)
    ∷ route (codes "GET") (codes "/v1/workspaces/{workspaceID}/knowledge/docs")
        (at_least data_admin)
    ∷ route (codes "POST") (codes "/v1/workspaces/{workspaceID}/knowledge/docs")
        (at_least data_admin)
    ∷ route (codes "POST") (codes "/v1/workspaces/{workspaceID}/knowledge/docs/upload")
        (at_least data_admin)
    ∷ route (codes "GET") (codes "/v1/knowledge/docs/{docID}/download") authenticated
    ∷ route (codes "GET") (codes "/v1/runs/{runID}/report") authenticated
    ∷ route (codes "GET") (codes "/v1/tasks/{taskID}") authenticated
    ∷ route (codes "POST") (codes "/v1/data/upload") (at_least normal_user)
    ∷ route (codes "POST") (codes "/v1/data/execute") (at_least data_admin)
    ∷ route (codes "GET") (codes "/v1/datasets") authenticated
    ∷ route (codes "POST") (codes "/v1/datasets") (at_least super_admin)
    ∷ route (codes "GET") (codes "/v1/datasets/{id}") authenticated
    ∷ route (codes "PUT") (codes "/v1/datasets/{id}") (at_least super_admin)
    ∷ route (codes "DELETE") (codes "/v1/datasets/{id}") (at_least super_admin)
    ∷ route (codes "POST") (codes "/v1/datasets/{id}/grant") (at_least super_admin)
    ∷ route (codes "POST") (codes "/v1/datasets/{id}/revoke") (at_least super_admin)
    ∷ route (codes "GET") (codes "/v1/datasets/{did}/tables") authenticated
    ∷ route (codes "POST") (codes "/v1/datasets/{did}/tables") (at_least data_admin)
    ∷ route (codes "GET") (codes "/v1/datasets/{did}/tables/{tid}") authenticated
    ∷ route (codes "DELETE") (codes "/v1/datasets/{did}/tables/{tid}") (at_least data_admin)
    ∷ route (codes "GET") (codes "/v1/datasets/{did}/tables/{tid}/fields") authenticated
    ∷ []

-- the first route of a method and a pattern
unfoldable pub find_route : Text → Text → List Route → Option Access
find_route method path [] = none
find_route method path (r ∷ rest) =
    let later = find_route method path rest in
    if same r.method method && same r.path path then some r.access else later

-- the gates of a route, for a request with a header and a query; a route for anyone has none
unfoldable pub gate_of :
    Jwt → ℕ → Text → (Text → Option (Answer ℕ)) → Text → Text → Access → Option Gate
gate_of jwt now secret exists header query public = none
gate_of jwt now secret exists header query authenticated =
    some (require none (auth jwt now secret exists header query))
gate_of jwt now secret exists header query (at_least role) =
    some (require (some role) (auth jwt now secret exists header query))
