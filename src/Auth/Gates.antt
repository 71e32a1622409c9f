-- ===== src/Auth/Gates.antt =====
-- internal/middleware: whom the gates of a route let through.
use data_flow_agent_hub.Base.{
  ℕ, Text, same, [], true, false, not, ◌&&◌, Option, none, some, ◌≡◌, refl, if_cases, ◌⊎◌, inl, inr,
}
use data_flow_agent_hub.Sqlrun.Run.{Answer, ok, err}
use data_flow_agent_hub.Rbac.{min_role}
use data_flow_agent_hub.Auth.{
  Claims, Jwt, parse, is_revoked, raw_token, Gate, passed, denied, check_revoked, check_parsed,
  auth, require, require_min_role,
}

abbrev pub HasRole : Option Text → Claims → Type 0
HasRole none c = Unit
HasRole (some min) c = min_role min c.role ≡ true

module _ (jwt : Jwt) (now : ℕ) (secret : Text) (exists : Text → Option (Answer ℕ))
    (header query : Text) where
  -- claims of a token that parses and is not known as revoked
  abbrev pub IsAuthentic : Claims → Type 0
  IsAuthentic c =
      (same (raw_token header query) [] ≡ false)
      × (parse jwt now secret (raw_token header query) ≡ ok c)
      × ((not (same c.id []) && is_revoked (exists c.id)) ≡ false)

  abbrev pub Admitted : Option Text → Gate → Type 0
  Admitted min (passed c) = IsAuthentic c × HasRole min c
  Admitted min (denied status message) = (status ≡ 401) ⊎ (status ≡ 403)

  check_parsed-Admitted :
      (a : Answer Claims)
      → same (raw_token header query) [] ≡ false
      → parse jwt now secret (raw_token header query) ≡ a
      → Admitted none (check_parsed exists a)
  unfolding check_parsed check_revoked
  check_parsed-Admitted (err e) raw h = inl refl
  check_parsed-Admitted (ok c) raw h =
      if_cases (Admitted none) (not (same c.id []) && is_revoked (exists c.id)) _ _ (λ _. inl refl)
        (λ live. ((raw, h, live), tt))

  auth-Admitted : Admitted none (auth jwt now secret exists header query)
  unfolding auth
  auth-Admitted =
      if_cases (Admitted none) (same (raw_token header query) []) _ _ (λ _. inl refl)
        (λ raw. check_parsed-Admitted _ raw refl)

  require-Admitted : (min : Option Text) (g : Gate) → Admitted none g → Admitted min (require min g)
  unfolding require require_min_role
  require-Admitted min (denied status message) h = h
  require-Admitted none (passed c) h = h
  require-Admitted (some min) (passed c) h =
      if_cases (Admitted (some min)) (min_role min c.role) _ _ (λ role. (h.0, role)) (λ _. inr refl)

  -- A request that the gates of a route let through carries, in its header or else in its query, a token
  -- that is not empty, that Parse accepts with these claims, that Redis does not report as revoked (which it
  -- does not either when it fails), and whose role reaches the role of the route, if the route has one.
  -- Any other request gets 401 or 403.
  pub require-auth-Admitted :
      (min : Option Text) → Admitted min (require min (auth jwt now secret exists header query))
  require-auth-Admitted min = require-Admitted min _ auth-Admitted
