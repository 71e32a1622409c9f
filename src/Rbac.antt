-- ===== src/Rbac.antt =====
-- internal/rbac/roles.go: the roles, their order, and the gate that every package uses.
use data_flow_agent_hub.Base.{
  ℕ, Text, codes, same, lookup, List, [], ◌∷◌, Bool, false, Option, none, some, leb,
}

unfoldable pub read_only_visitor : Text
read_only_visitor = codes "read_only_visitor"

unfoldable pub normal_user : Text
normal_user = codes "normal_user"

unfoldable pub data_admin : Text
data_admin = codes "data_admin"

unfoldable pub super_admin : Text
super_admin = codes "super_admin"

-- `RoleOrder`
abbrev pub role_order : List (Text × ℕ)
role_order = (read_only_visitor, 1) ∷ (normal_user, 2) ∷ (data_admin, 3) ∷ (super_admin, 4) ∷ []

-- `RoleOrder[role]` with its second result
unfoldable pub role_level : Text → Option ℕ
unfolding lookup
role_level role = lookup role role_order

-- the closure that `MinRole` returns for a known required role
unfoldable pub at_least : ℕ → Option ℕ → Bool
at_least required none = false
at_least required (some user_level) = leb required user_level

-- `MinRole(required)(user)`
unfoldable pub admits : Option ℕ → Option ℕ → Bool
unfolding at_least
admits none user = false
admits (some required) user = at_least required user

unfoldable pub min_role : Text → Text → Bool
unfolding admits
min_role required user = admits (role_level required) (role_level user)

unfoldable pub is_super_admin : Text → Bool
is_super_admin role = same role super_admin

unfoldable pub is_data_admin : Text → Bool
is_data_admin role = same role data_admin
