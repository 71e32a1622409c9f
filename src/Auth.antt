-- ===== src/Auth.antt =====
-- internal/auth (jwt.go, revoke.go) and internal/middleware: the tokens, and the gates before the handlers.
-- The library of JSON web tokens and Redis are parameters. Times are in seconds. Logging, metrics and the
-- trace are left out.
pub mod Tokens
pub mod Gates
pub mod Examples
use data_flow_agent_hub.Base.{
  ℕ, ◌+◌, Text, codes, same, trim_space, to_lower, has_prefix, drop, ltb, List, [], ◌∷◌, ◌++◌, Bool,
  true, false, not, ◌&&◌, Option, none, some, if◌then◌else◌,
}
use data_flow_agent_hub.Rbac.{min_role}
use data_flow_agent_hub.Sqlrun.Run.{Answer, ok, err}

-- `Claims`, with `RegisteredClaims`
pub record Claims : Type 0 where
  pub user_id : Text
  pub workspace_id : Text
  pub role : Text
  pub expires_at : ℕ
  pub issued_at : ℕ
  pub id : Text
  pub subject : Text

-- The JSON of the claims. `UserID` and the embedded `Subject` have the same tag `sub`; `encoding/json`
-- then reads and writes the one that is less deep.
pub record Payload : Type 0 where
  pub sub : Text
  pub wid : Text
  pub role : Text
  pub exp : ℕ
  pub iat : ℕ
  pub jti : Text

unfoldable pub payload_of : Claims → Payload
payload_of c = record {
  sub = c.user_id;
  wid = c.workspace_id;
  role = c.role;
  exp = c.expires_at;
  iat = c.issued_at;
  jti = c.id;
}

unfoldable pub claims_of : Payload → Claims
claims_of p = record {
  user_id = p.sub;
  workspace_id = p.wid;
  role = p.role;
  expires_at = p.exp;
  issued_at = p.iat;
  id = p.jti;
  subject = [];
}

-- The library: what it signs, what it reads of a token and whether the method is HMAC, whether the signature
-- fits, and whether the claims are valid at a time.
pub record Jwt : Type 0 where
  pub signed : Text → Payload → Answer Text
  pub read : Text → Option (Bool × Payload)
  pub verifies : Text → Text → Bool
  pub is_valid : ℕ → Payload → Bool

-- `Sign`, at the time `now` with a new identifier
unfoldable pub sign : Jwt → ℕ → Text → Text → Text → Text → Text → ℕ → Answer Text
sign jwt now id secret user workspace role ttl = jwt.signed secret (
    payload_of (record {
      user_id = user;
      workspace_id = workspace;
      role = role;
      expires_at = now + ttl;
      issued_at = now;
      id = id;
      subject = [];
    }))

-- `1 * time.Hour`
abbrev pub sse_ttl : ℕ
sse_ttl = 3600

-- `SignSSEToken`
unfoldable pub sign_sse_token : Jwt → ℕ → Text → Text → Text → Text → Text → Answer Text
sign_sse_token jwt now id secret user workspace session = jwt.signed secret (
    payload_of (record {
      user_id = user;
      workspace_id = workspace;
      role = codes "viewer";
      expires_at = now + sse_ttl;
      issued_at = now;
      id = id;
      subject = session;
    }))

-- `Parse`
unfoldable pub parse_read : Jwt → ℕ → Text → Text → Option (Bool × Payload) → Answer Claims
parse_read jwt now secret token none = err (codes "token is malformed")
parse_read jwt now secret token (some (false, p)) = err (codes "unexpected signing method")
parse_read jwt now secret token (some (true, p)) =
    if jwt.verifies secret token && jwt.is_valid now p
    then ok (claims_of p)
    else err (codes "invalid token")

unfoldable pub parse : Jwt → ℕ → Text → Text → Answer Claims
parse jwt now secret token = parse_read jwt now secret token (jwt.read token)

-- `IsRevoked`, by the answer of Redis to `EXISTS`; without Redis, and where it fails, no token is revoked
unfoldable pub is_revoked : Option (Answer ℕ) → Bool
is_revoked none = false
is_revoked (some (err e)) = false
is_revoked (some (ok n)) = ltb 0 n

-- the token of a request: of its header, or else of its query
unfoldable pub bearer : Text → Text
bearer header =
    if has_prefix (to_lower header) (codes "bearer ") then trim_space (drop 7 header) else []

unfoldable pub raw_token : Text → Text → Text
raw_token header query = let raw = bearer header in if same raw [] then query else raw

-- what a gate does: it lets the request through with its claims, or writes an error
pub data Gate : Type 0 where
  passed : Claims → Gate
  denied : ℕ → Text → Gate

-- `Auth`, for what Redis answers about an identifier
unfoldable pub check_revoked : (Text → Option (Answer ℕ)) → Claims → Gate
check_revoked exists c =
    if not (same c.id []) && is_revoked (exists c.id)
    then denied 401 (codes "token revoked")
    else passed c

unfoldable pub check_parsed : (Text → Option (Answer ℕ)) → Answer Claims → Gate
check_parsed exists (err e) = denied 401 (codes "unauthorized")
check_parsed exists (ok c) = check_revoked exists c

unfoldable pub auth : Jwt → ℕ → Text → (Text → Option (Answer ℕ)) → Text → Text → Gate
auth jwt now secret exists header query =
    let raw = raw_token header query in
    if same raw []
    then denied 401 (codes "unauthorized")
    else check_parsed exists (parse jwt now secret raw)

-- `RequireMinRole`
unfoldable pub require_min_role : Text → Option Claims → Gate
require_min_role min none = denied 403 (codes "forbidden")
require_min_role min (some c) =
    if min_role min c.role then passed c else denied 403 (codes "forbidden")

-- the two gates of a route
unfoldable pub require : Option Text → Gate → Gate
require min (denied status message) = denied status message
require none (passed c) = passed c
require (some min) (passed c) = require_min_role min (some c)
