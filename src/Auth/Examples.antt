-- ===== src/Auth/Examples.antt =====
-- A library that signs by writing the secret and the claims down, and a token for the event stream.
use data_flow_agent_hub.Base.{
  ℕ, ◌+◌, Text, codes, same, same_refl, length, take, drop, drop-length-append, take-length-append,
  ltb, [], ◌∷◌, ◌++◌, true, some, ◌≡◌, refl, arith,
}
use data_flow_agent_hub.Sqlrun.Run.{ok}
use data_flow_agent_hub.Auth.{
  Payload, payload_of, Jwt, sse_ttl, sign_sse_token, parse, auth, require,
}
use data_flow_agent_hub.Auth.Tokens.{IsJwt, parse-sign_sse_token}
use data_flow_agent_hub.Auth.Gates.{Admitted, require-auth-Admitted}

write : Text → Text → Text
write s rest = length s ∷ (s ++ rest)

field : Text → Text × Text
field [] = ([], [])
field (n ∷ t) = (take n t, drop n t)

field-write : (s rest : Text) → field (write s rest) ≡ (s, rest)
unfolding field write
field-write s rest = rw (take-length-append s rest, drop-length-append s rest) refl

token_of : Text → Payload → Text
token_of secret p =
    write secret (write p.sub (write p.wid (write p.role (write p.jti (p.exp ∷ p.iat ∷ [])))))

first : Text → ℕ
first [] = 0
first (n ∷ t) = n

second : Text → ℕ
unfolding first
second [] = 0
second (n ∷ t) = first t

payload_in : Text → Payload
payload_in t =
    let a = field t in
    let b = field a.1 in
    let c = field b.1 in
    let d = field c.1 in
    record { sub = a.0; wid = b.0; role = c.0; jti = d.0; exp = first d.1; iat = second d.1 }

payload_in-write :
    (p : Payload)
    → payload_in (write p.sub (write p.wid (write p.role (write p.jti (p.exp ∷ p.iat ∷ []))))) ≡ p
unfolding payload_in first second
payload_in-write p =
    rw (field-write p.sub _, field-write p.wid _, field-write p.role _, field-write p.jti _) refl

abbrev plain : Jwt
plain = record {
  signed = λ secret p. ok (token_of secret p);
  read = λ token. some (true, payload_in (field token).1);
  verifies = λ secret token. same (field token).0 secret;
  is_valid = λ now p. ltb now p.exp;
}

plain-reads :
    (secret token : Text) (p : Payload)
    → plain.signed secret p ≡ ok token
    → (plain.read token ≡ some (true, p)) × (plain.verifies secret token ≡ true)
unfolding token_of
plain-reads secret token p h =
    let e : token_of secret p ≡ token = cc in
    rw (← e, field-write secret _, payload_in-write p) (refl, same_refl secret)

plain-IsJwt : IsJwt plain
plain-IsJwt = record { reads = plain-reads; lasts = λ now p h. ground arith }

abbrev token : Text
token = token_of (codes "k") (record {
  sub = codes "u";
  wid = codes "w";
  role = codes "viewer";
  exp = 5 + sse_ttl;
  iat = 5;
  jti = codes "i";
})

signed :
    sign_sse_token plain 5 (codes "i") (codes "k") (codes "u") (codes "w") (codes "s") ≡ ok token
unfolding sign_sse_token payload_of
signed = refl

parse-sign_sse_token_example :
    parse plain 9 (codes "k") token
    ≡ ok (record {
      user_id = codes "u";
      workspace_id = codes "w";
      role = codes "viewer";
      expires_at = 5 + sse_ttl;
      issued_at = 5;
      id = codes "i";
      subject = [];
    })
parse-sign_sse_token_example =
    parse-sign_sse_token plain plain-IsJwt 5 9 (codes "i") (codes "k") (codes "u") (codes "w")
      (codes "s") token signed (omega arith)

-- a request to a route for administrators of data, with that token in its query
require-auth-Admitted_example :
    Admitted plain 9
      (codes "k")
      (λ id. some (ok 0))
      []
      token
      (some (codes "data_admin"))
      (require (some (codes "data_admin")) (auth plain 9 (codes "k") (λ id. some (ok 0)) [] token))
require-auth-Admitted_example =
    require-auth-Admitted plain 9 (codes "k") (λ id. some (ok 0)) [] token
      (some (codes "data_admin"))
