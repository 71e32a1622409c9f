-- ===== src/Handlers/Sessions/Examples.antt =====
-- A session about a data set for which nothing is granted.
use data_flow_agent_hub.Base.{
  Text, codes, same, trim_space, trim_left, trim_right, keep, is_space, lookup, is_some, List, [],
  ◌∷◌, true, false, ◌≡◌, refl,
}
use data_flow_agent_hub.Rbac.{read_only_visitor}
use data_flow_agent_hub.Handlers.DataSql.{Catalog, not_deleted}
use data_flow_agent_hub.Handlers.Messages.{Session}
use data_flow_agent_hub.Handlers.Messages.Replies.{Caller}
use data_flow_agent_hub.Handlers.Sessions.{Backend, title_of, create_session}
use data_flow_agent_hub.Handlers.Sessions.Created.{
  OpensDataset, in_dataset, create_session-OpensDataset,
}

abbrev back : Backend
back = record { new_id = codes "s"; select_fails = false; insert_fails = false }

abbrev catalog : Catalog
catalog = record {
  datasets =
      (codes "d", record { name = codes "n"; mysql_database = codes "db"; status = codes "active" })
      ∷ [];
  permissions = [];
  count_fails = false;
  select_fails = false;
}

abbrev visitor : Caller
visitor = record { user_id = codes "v"; workspace_id = codes "w"; role = read_only_visitor }

trimmed : trim_space (codes "d") ≡ codes "d"
unfolding trim_space trim_left trim_right keep is_space
trimmed = refl

found : not_deleted (lookup (codes "d") catalog.datasets) ≡ true
unfolding not_deleted lookup same
found = refl

abbrev sessions : List (Text × Session)
sessions = []

new : is_some (lookup back.new_id sessions) ≡ false
unfolding lookup
new = refl

create_session-OpensDataset_example :
    OpensDataset
      (codes "s")
      (title_of (codes "sales"))
      visitor
      (codes "d")
      (create_session back [] catalog visitor (in_dataset (codes "sales") (codes "d")) [])
create_session-OpensDataset_example =
    create_session-OpensDataset back [] catalog visitor (codes "sales") b'd' [] [] trimmed refl
      found refl new
