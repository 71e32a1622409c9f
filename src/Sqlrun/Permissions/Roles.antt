-- ===== src/Sqlrun/Permissions/Roles.antt =====
-- The gate by role of `IsAllowedForRole` against that of package rbac.
use data_flow_agent_hub.Base.{ℕ, ◌<◌, Text, same, true, none, some, ◌≡◌, ◌↔◌, refl, arith}
use data_flow_agent_hub.Rbac.{
  read_only_visitor, normal_user, data_admin, super_admin, role_level, min_role,
}
use data_flow_agent_hub.Sqlrun.Classify.{
  SqlType, select, insert, update, delete, create_table, create_db, drop_sql, alter, truncate,
  unknown,
}
use data_flow_agent_hub.Sqlrun.Permissions.{min_role_for_sql_type, is_allowed_for_role}

-- every role that the table of statements asks for is a known one, of a level above 0
required_level : (t : SqlType) → (n : ℕ) × (role_level (min_role_for_sql_type t) ≡ some n) × (0 < n)
unfolding role_level min_role_for_sql_type read_only_visitor normal_user data_admin super_admin same
required_level select = (1, refl, omega arith)
required_level insert = (2, refl, omega arith)
required_level update = (2, refl, omega arith)
required_level create_table = (3, refl, omega arith)
required_level create_db = (4, refl, omega arith)
required_level delete = (3, refl, omega arith)
required_level drop_sql = (4, refl, omega arith)
required_level alter = (3, refl, omega arith)
required_level truncate = (3, refl, omega arith)
required_level unknown = (4, refl, omega arith)

-- `IsAllowedForRole`, which reads an unknown role as level 0, agrees with `rbac.MinRole`, which
-- refuses it, for every class of statement and every role, known or not.
pub is_allowed-min_role :
    (t : SqlType) (role : Text)
    → (is_allowed_for_role t role ≡ none) ↔ (min_role (min_role_for_sql_type t) role ≡ true)
unfolding is_allowed_for_role min_role
is_allowed-min_role t role = let (n, e, pos) = required_level t in rw e (ground arith)

-- A role that reaches a role which is allowed a class of statement is allowed it too.
pub is_allowed_mono :
    (t : SqlType) (low high : Text)
    → min_role low high ≡ true
    → is_allowed_for_role t low ≡ none
    → is_allowed_for_role t high ≡ none
unfolding is_allowed_for_role min_role
is_allowed_mono t low high h a = ground arith
