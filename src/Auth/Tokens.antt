-- ===== src/Auth/Tokens.antt =====
-- internal/auth/jwt.go: what a token for the event stream carries.
use data_flow_agent_hub.Base.{ℕ, ◌+◌, ◌<◌, Text, codes, [], true, some, ◌≡◌, refl}
use data_flow_agent_hub.Sqlrun.Run.{ok}
use data_flow_agent_hub.Auth.{
  Payload, payload_of, claims_of, Jwt, sse_ttl, sign_sse_token, parse, parse_read,
}

-- What is relied on of the library: a token that it has signed is read back as it was, with the method
-- HMAC and a signature that fits the same secret; and claims are valid before they expire.
pub record IsJwt (jwt : Jwt) : Type 0 where
  pub reads :
      (secret token : Text) (p : Payload)
      → jwt.signed secret p ≡ ok token
      → (jwt.read token ≡ some (true, p)) × (jwt.verifies secret token ≡ true)
  pub lasts : (now : ℕ) (p : Payload) → now < p.exp → jwt.is_valid now p ≡ true

-- Before a token of SignSSEToken has expired, Parse accepts it with the same secret, and gives the claims
-- of the user with the role viewer; the session that the token was made for is not among them.
pub parse-sign_sse_token :
    (jwt : Jwt) (laws : IsJwt jwt) (now later : ℕ) (id secret user workspace session token : Text)
    → sign_sse_token jwt now id secret user workspace session ≡ ok token
    → later < now + sse_ttl
    → parse jwt later secret token
      ≡ ok (record {
        user_id = user;
        workspace_id = workspace;
        role = codes "viewer";
        expires_at = now + sse_ttl;
        issued_at = now;
        id = id;
        subject = [];
      })
parse-sign_sse_token jwt laws now later id secret user workspace session token h before =
    let p : Payload = record {
      sub = user;
      wid = workspace;
      role = codes "viewer";
      exp = now + sse_ttl;
      iat = now;
      jti = id;
    } in
    let (reads, verifies) = laws.reads secret token p (unfold sign_sse_token payload_of in h) in
    unfold parse parse_read claims_of in rw (reads, verifies, laws.lasts later p before) refl
