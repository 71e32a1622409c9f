-- ===== src/Sqlrun/Permissions.antt =====
-- internal/sqlrun/permissions.go: system tables, and the role that each class of statement needs.
pub mod Roles
pub mod SystemTables
pub mod Examples
use data_flow_agent_hub.Base.{
  ℕ, ◌+◌, ◌-◌, Text, codes, same, to_upper, index, length, get_elem?, find?, any, List, [], ◌∷◌,
  Bool, false, not, ◌&&◌, ◌||◌, Option, none, some, ltb, leb, ◌==◌, if◌then◌else◌,
}
use data_flow_agent_hub.Rbac.{read_only_visitor, normal_user, data_admin, super_admin, role_level}
use data_flow_agent_hub.Sqlrun.Classify.{
  SqlType, select, insert, update, delete, create_table, create_db, drop_sql, alter, truncate,
  unknown,
}

-- `systemTables`
abbrev pub system_tables : List Text
system_tables =
    codes "users"
    ∷ codes "workspaces"
    ∷ codes "sessions"
    ∷ codes "messages"
    ∷ codes "runs"
    ∷ codes "audit_events"
    ∷ codes "async_tasks"
    ∷ codes "knowledge_docs"
    ∷ codes "data_sources"
    ∷ codes "agent_run_steps"
    ∷ codes "datasets"
    ∷ codes "dataset_permissions"
    ∷ codes "dataset_tables"
    ∷ codes "table_fields"
    ∷ codes "permission_requests"
    ∷ []

unfoldable pub is_system_table : Text → Bool
unfolding same
is_system_table table_name = any (λ t. same t table_name) system_tables

-- `minRoleForSQLType`
unfoldable pub min_role_for_sql_type : SqlType → Text
min_role_for_sql_type select = read_only_visitor
min_role_for_sql_type insert = normal_user
min_role_for_sql_type update = normal_user
min_role_for_sql_type create_table = data_admin
min_role_for_sql_type create_db = super_admin
min_role_for_sql_type delete = data_admin
min_role_for_sql_type drop_sql = super_admin
min_role_for_sql_type alter = data_admin
min_role_for_sql_type truncate = data_admin
min_role_for_sql_type unknown = super_admin

-- `rbac.RoleOrder[role]`, where a missing key reads as 0
unfoldable pub order_of : Option ℕ → ℕ
order_of none = 0
order_of (some level) = level

-- `IsAllowedForRole`: `none` is a nil error, and an error names the role that is required
unfoldable pub is_allowed_for_role : SqlType → Text → Option Text
unfolding order_of
is_allowed_for_role sql_type role =
    let required = min_role_for_sql_type sql_type in
    if ltb (order_of (role_level role)) (order_of (role_level required))
    then some required
    else none

unfoldable pub is_ident_char : ℕ → Bool
is_ident_char c =
    leb b'A' c && leb c b'Z' || leb b'a' c && leb c b'z' || leb b'0' c && leb c b'9' || c == b'_'

-- `isIdentChar(s[i])`, false where `i` is no index of `s`
unfoldable pub ident_at : Option ℕ → Bool
unfolding is_ident_char
ident_at none = false
ident_at (some c) = is_ident_char c

-- the tests of the bytes before and behind the first match at `idx`
unfoldable pub delimited : Text → ℕ → Option ℕ → Bool
unfolding ident_at
delimited upper size none = false
delimited upper size (some idx) =
    let before = idx == 0 || not (ident_at (get_elem? upper (idx - 1))) in
    let after = leb (length upper) (idx + size) || not (ident_at (get_elem? upper (idx + size))) in
    before && after

-- one round of the loop of `CheckSystemTableInSQL`
unfoldable pub names_table : Text → Text → Bool
unfolding delimited index to_upper
names_table upper tbl = delimited upper (length (to_upper tbl)) (index upper (to_upper tbl))

-- `CheckSystemTableInSQL`. Go ranges over a map in an order of its own choice, which is `order`.
unfoldable pub check_system_table_in_sql : List Text → Text → Option Text
unfolding names_table
check_system_table_in_sql order sql = let upper = to_upper sql in find? (names_table upper) order
