-- ===== src/Sqlrun/Permissions/Examples.antt =====
-- Runs of the gates.
use mathlib.Core.List.{Mem}
use data_flow_agent_hub.Base.{Text, codes, same, to_upper, true, none, some, ◌≡◌, ◌↔◌, refl}
use data_flow_agent_hub.Rbac.{
  normal_user, data_admin, min_role, role_level, read_only_visitor, super_admin,
}
use data_flow_agent_hub.Sqlrun.Classify.{insert, drop_sql}
use data_flow_agent_hub.Sqlrun.Permissions.{
  system_tables, min_role_for_sql_type, is_allowed_for_role, check_system_table_in_sql,
}
use data_flow_agent_hub.Sqlrun.Permissions.Roles.{is_allowed-min_role}
use data_flow_agent_hub.Sqlrun.Permissions.SystemTables.{StandsAlone, check_system_table_sound}

visitor_cannot_drop : is_allowed_for_role drop_sql normal_user ≡ some super_admin
unfolding is_allowed_for_role role_level min_role_for_sql_type normal_user super_admin
    read_only_visitor data_admin same
visitor_cannot_drop = refl

is_allowed-min_role_example :
    (is_allowed_for_role insert (codes "guest") ≡ none)
    ↔ (min_role (min_role_for_sql_type insert) (codes "guest") ≡ true)
is_allowed-min_role_example = is_allowed-min_role insert (codes "guest")

user_reaches_admin : min_role normal_user data_admin ≡ true
unfolding min_role role_level normal_user super_admin read_only_visitor data_admin same
user_reaches_admin = refl

user_may_insert : is_allowed_for_role insert normal_user ≡ none
unfolding is_allowed_for_role role_level min_role_for_sql_type normal_user super_admin
    read_only_visitor data_admin same
user_may_insert = refl

abbrev reset : Text
reset = codes "update users set role = 1"

reset_refused : check_system_table_in_sql system_tables reset ≡ some (codes "users")
unfolding check_system_table_in_sql
reset_refused = refl

check_system_table_sound_example :
    Mem (codes "users") system_tables × StandsAlone (to_upper reset) (to_upper (codes "users"))
check_system_table_sound_example =
    check_system_table_sound system_tables reset (codes "users") reset_refused
